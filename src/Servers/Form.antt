-- ===== src/Servers/Form.antt =====
-- apps/servers/forms.py: what `ServerForm` makes of its two own fields.
use ip_scout.Prelude.{Bool, not, ◌&&◌, List, [], ◌∷◌, ◌++◌, Text, filter, map, if◌then◌else◌}
use ip_scout.Python.Strip.{is_nil, strip}
use ip_scout.Python.Split.{splitlines}
use ip_scout.Models.{Server}

-- "\n".join(self.instance.log_search_paths)
unfoldable pub initial_paths : List Text → Text
initial_paths [] = []
initial_paths (x ∷ []) = x
initial_paths (x ∷ y ∷ xs) = x ++ b'\n' ∷ initial_paths (y ∷ xs)

unfoldable pub clean_log_search_paths_text : Text → List Text
unfolding splitlines strip filter
clean_log_search_paths_text raw = filter (λ l. not (is_nil l)) (map strip (splitlines raw))

-- Whether `clean` adds its error: a new server needs a credential.
unfoldable pub lacks_credential : Bool → Text → Bool
lacks_credential is_new ssh_private_key = is_new && is_nil ssh_private_key

-- save: a blank credential keeps the old one.
unfoldable pub save : Text → List Text → Server → Server
save ssh_private_key log_search_paths instance_ = record instance_ {
  log_search_paths = log_search_paths;
  ssh_private_key = if is_nil ssh_private_key then instance_.ssh_private_key else ssh_private_key;
}

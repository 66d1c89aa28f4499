-- ===== src/Dashboard/Map/Cells.antt =====
-- apps/dashboard/map.py: the cells of the map, and how many rows lie in each.
use ip_scout.Prelude.{
  ℕ, ◌+◌, ◌≤◌, ◌≡◌, refl, ap, sym, ◌∙◌, Bool, true, false, not, ◌&&◌, ◌||◌, none, some, List, [],
  ◌∷◌, Text, ◌==◌, filter, any, length, if◌then◌else◌, arith, Elem, any-Elem, any_found, subst, ◌<◌,
  Bool-cases, Option-cases, inl, inr,
}
use ip_scout.Errors.{ok}
use ip_scout.Models.{Float, IpAddress}
use ip_scout.Dashboard.Map.{MapCluster, same_cell, add_point, add_points}

-- No two clusters have one cell, and none has more Iranian addresses than addresses.
abbrev pub WellFormed : List MapCluster → Type 0
WellFormed [] = Unit
WellFormed (c ∷ cs) =
    (c.iran_count ≤ c.count) × (any (same_cell c.lat c.lon) cs ≡ false) × WellFormed cs

-- The cell of a row has this centre: its latitude and its longitude are each moved to the centre.
abbrev pub lies_at : (ℕ → Float → Float) → ℕ → Float → Float → IpAddress → Bool
lies_at snap size x y r = elim r.latitude [
  | none ↦ false
  | some lat ↦ elim r.longitude [
    | none ↦ false
    | some lon ↦ (x.bits == (snap size lat).bits) && (y.bits == (snap size lon).bits)
  ]
]

-- Which of the two numbers of a cluster is meant: that of all addresses, or of the Iranian ones.
abbrev weight : Bool → MapCluster → ℕ
weight false c = c.count
weight true c = c.iran_count

abbrev pub weighs : Bool → IpAddress → Bool
weighs iranian r = not iranian || r.is_iran

abbrev pub weigh_flag : Bool → Bool → ℕ
weigh_flag false is_iran = 1
weigh_flag true is_iran = if is_iran then 1 else 0

-- The number that the clusters of a cell have.
at : Bool → Float → Float → List MapCluster → ℕ
at iranian x y [] = 0
at iranian x y (c ∷ cs) =
    let rest = at iranian x y cs in if same_cell x y c then weight iranian c + rest else rest

at-add_point :
    (iranian : Bool) (x y : Float) (status : Text) (lat lon : Float) (is_iran : Bool)
    (cs : List MapCluster)
    → at iranian x y (add_point status lat lon is_iran cs)
      ≡ (if (x.bits == lat.bits) && (y.bits == lon.bits) then weigh_flag iranian is_iran else 0)
        + at iranian x y cs
unfolding at add_point
at-add_point true x y status lat lon is_iran [] = ground arith
at-add_point false x y status lat lon is_iran [] = ground arith
at-add_point true x y status lat lon is_iran (c ∷ cs) =
    ground (arith, at-add_point true x y status lat lon is_iran cs)
at-add_point false x y status lat lon is_iran (c ∷ cs) =
    ground (arith, at-add_point false x y status lat lon is_iran cs)

rows_at : (ℕ → Float → Float) → ℕ → Bool → Float → Float → List IpAddress → ℕ
unfolding filter
rows_at snap size iranian x y rows =
    length (filter (λ r. lies_at snap size x y r && weighs iranian r) rows)

rows_at-nil :
    (snap : ℕ → Float → Float) (size : ℕ) (iranian : Bool) (x y : Float)
    → rows_at snap size iranian x y [] ≡ 0
unfolding rows_at filter
rows_at-nil snap size iranian x y = refl

rows_at-row :
    (snap : ℕ → Float → Float) (size : ℕ) (iranian : Bool) (x y : Float) (r : IpAddress)
    (rows : List IpAddress) (b : Bool)
    → lies_at snap size x y r ≡ b
    → rows_at snap size iranian x y (r ∷ rows)
      ≡ (if b then weigh_flag iranian r.is_iran else 0) + rows_at snap size iranian x y rows
unfolding rows_at filter
rows_at-row snap size true x y r rows true h = ground arith
rows_at-row snap size true x y r rows false h = ground arith
rows_at-row snap size false x y r rows true h = ground arith
rows_at-row snap size false x y r rows false h = ground arith

at-add_points :
    (snap : ℕ → Float → Float) (status : Text) (size : ℕ) (iranian : Bool) (x y : Float)
    (rows : List IpAddress) (cs cs' : List MapCluster)
    → add_points snap status size rows cs ≡ ok cs'
    → at iranian x y cs' ≡ rows_at snap size iranian x y rows + at iranian x y cs
unfolding add_points
at-add_points snap status size iranian x y [] cs cs' h =
    let e : cs ≡ cs' = ground arith in ap (at iranian x y) (sym e) ∙ none_there
  where
    none_there : at iranian x y cs ≡ rows_at snap size iranian x y [] + at iranian x y cs
    none_there = let z = rows_at-nil snap size iranian x y in omega (arith, z)
at-add_points snap status size iranian x y (r ∷ rows) cs cs' h = elim (Option-cases r.latitude) [
  | inl missing ↦ absurd (ground arith)
  | inr (lat, e) ↦ elim (Option-cases r.longitude) [
    | inl missing ↦ absurd (ground arith)
    | inr (lon, f) ↦
        let next = add_point status (snap size lat) (snap size lon) r.is_iran cs in
        let done : add_points snap status size rows next ≡ ok cs' = ground arith in
        let rest = at-add_points snap status size iranian x y rows next cs' done in
        let one = at-add_point iranian x y status (snap size lat) (snap size lon) r.is_iran cs in
        let lies : lies_at snap size x y r
            ≡ ((x.bits == (snap size lat).bits) && (y.bits == (snap size lon).bits)) =
          rw e (rw f refl) in
        let row = rows_at-row snap size iranian x y r rows _ lies in omega (arith, rest, one, row)
  ]
]

length-filter-pos :
    (p : IpAddress → Bool) (rows : List IpAddress) (r : IpAddress)
    → Elem r rows
    → p r ≡ true
    → 0 < length (filter p rows)
unfolding filter
length-filter-pos p [] r i h = absurd i
length-filter-pos p (s ∷ rows) r (inl same) h =
    let f : p s ≡ true = ap p (sym same) ∙ h in ground arith
length-filter-pos p (s ∷ rows) r (inr later) h =
    let rest = length-filter-pos p rows r later h in ground arith

at-absent :
    (iranian : Bool) (x y : Float) (cs : List MapCluster)
    → any (same_cell x y) cs ≡ false
    → at iranian x y cs ≡ 0
unfolding at any
at-absent iranian x y [] h = refl
at-absent iranian x y (c ∷ cs) h = ground (arith, at-absent iranian x y cs)

-- In clusters of different cells, the number of a cell is that of its cluster.
at-Elem :
    (iranian : Bool) (cs : List MapCluster) (c : MapCluster)
    → WellFormed cs
    → Elem c cs
    → at iranian c.lat c.lon cs ≡ weight iranian c
unfolding at any
at-Elem iranian [] c w i = absurd i
at-Elem iranian (d ∷ cs) c (_, new, w) (inl same) =
    let absent = at-absent iranian d.lat d.lon cs new in
    let here : at iranian d.lat d.lon (d ∷ cs) ≡ weight iranian d = ground arith in
    subst (λ x. at iranian x.lat x.lon (d ∷ cs) ≡ weight iranian x) (sym same) here
at-Elem iranian (d ∷ cs) c (_, new, w) (inr later) =
    let rest = at-Elem iranian cs c w later in
    elim (Bool-cases (same_cell c.lat c.lon d)) [
      | inr other ↦ ground arith
      | inl same ↦
          let there = any-Elem (same_cell d.lat d.lon) cs c later (ground arith) in
          absurd (ground arith)
    ]

-- What the clusters that the loop gives have, one by one.
pub record Tallied (snap : ℕ → Float → Float) (size : ℕ) (rows : List IpAddress) (c : MapCluster)
    : Type 0 where
  pub count : c.count ≡ length (filter (lies_at snap size c.lat c.lon) rows)
  pub iran_count :
      c.iran_count ≡ length (filter (λ r. lies_at snap size c.lat c.lon r && r.is_iran) rows)

filter-same :
    (p q : IpAddress → Bool) (rows : List IpAddress)
    → ((r : IpAddress) → p r ≡ q r)
    → filter p rows ≡ filter q rows
unfolding filter
filter-same p q [] h = refl
filter-same p q (r ∷ rows) h = let e = h r in ground (arith, filter-same p q rows h)

pub add_points-Tallied :
    (snap : ℕ → Float → Float) (status : Text) (size : ℕ) (rows : List IpAddress)
    (cs : List MapCluster)
    → add_points snap status size rows [] ≡ ok cs
    → WellFormed cs
    → (c : MapCluster) → Elem c cs
    → Tallied snap size rows c
unfolding rows_at at
add_points-Tallied snap status size rows cs h w c i =
    let tally =
      λ (iranian : Bool). at-add_points snap status size iranian c.lat c.lon rows [] cs h in
    let own = λ (iranian : Bool). at-Elem iranian cs c w i in
    let lies = lies_at snap size c.lat c.lon in
    let same = filter-same (λ r. lies r && true) lies rows (λ r. ground arith) in
    record {
      count = omega (arith, own false, tally false, ap length same);
      iran_count = omega (arith, own true, tally true);
    }

-- The row lies in one of the clusters.
pub add_points-covers :
    (snap : ℕ → Float → Float) (status : Text) (size : ℕ) (rows : List IpAddress)
    (cs : List MapCluster) (r : IpAddress) (lat lon : Float)
    → add_points snap status size rows [] ≡ ok cs
    → Elem r rows
    → r.latitude ≡ some lat
    → r.longitude ≡ some lon
    → (c : MapCluster) × Elem c cs × (lies_at snap size c.lat c.lon r ≡ true)
unfolding rows_at at
add_points-covers snap status size rows cs r lat lon h i e f =
    let x = snap size lat in
    let y = snap size lon in
    let tally = at-add_points snap status size false x y rows [] cs h in
    let here : lies_at snap size x y r ≡ true = rw e (rw f (ground arith)) in
    let some_row =
      length-filter-pos (λ s. lies_at snap size x y s && weighs false s) rows r i (ground arith) in
    elim (Bool-cases (any (same_cell x y) cs)) [
      | inr absent ↦
          let z = at-absent false x y cs absent in absurd (omega (arith, z, tally, some_row))
      | inl present ↦
          let (c, j, same) = any_found (same_cell x y) cs present in
          (c, j, rw e (rw f (ground arith)))
    ]

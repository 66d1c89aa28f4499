-- ===== src/Dashboard/Map/Laws.antt =====
-- The map shows every address of its queryset once.
use ip_scout.Prelude.{
  length-map, ℕ, suc, ◌+◌, ◌≡◌, refl, ap, ◌∙◌, Bool, true, false, ◌&&◌, List, [], ◌∷◌, Text,
  is_some, filter, any, length, map, take, length-take, min, text_eq, codes, arith, Elem,
  Elem-filter, Bool-cases, Option-cases, inl, inr,
}
use ip_scout.Prelude.Int.{ℤ}
use ip_scout.Errors.{ok}
use ip_scout.Models.{Time, Float, IpAddress, Db}
use ip_scout.Models.Tables.{latest_first}
use ip_scout.Query.{order_by}
use ip_scout.Query.Ordered.{
  Elem-take, Elem-order_by, order_by-Elem, length-order_by, length-filter-order_by,
}
use ip_scout.Dashboard.{filtered_queryset}
use ip_scout.Dashboard.Map.Cells.{
  WellFormed, lies_at, Tallied, add_points-Tallied, add_points-covers,
}
use ip_scout.Dashboard.Map.{
  max_individual_points, MapPoint, MapCluster, same_cell, add_point, add_points, grid_size_for_zoom,
  clustered_points, individual_points, is_high, MapPoints, individual, clusters, build_points,
  point_of,
}

abbrev pub count_sum : List MapCluster → ℕ
count_sum [] = 0
count_sum (c ∷ cs) = c.count + count_sum cs

abbrev pub iran_sum : List MapCluster → ℕ
iran_sum [] = 0
iran_sum (c ∷ cs) = c.iran_count + iran_sum cs

-- A flag as a number.
abbrev bit : Bool → ℕ
bit true = 1
bit false = 0

abbrev pub iranian_rows : List IpAddress → ℕ
iranian_rows rows = length (filter (λ (r : IpAddress). r.is_iran) rows)

-- Clusters that show some rows: each row lies in one of them, no two have one cell, and each counts the rows
-- that lie in its cell.
pub record Shows (snap : ℕ → Float → Float) (size : ℕ) (rows : List IpAddress)
    (cs : List MapCluster) : Type 0 where
  pub covers :
      (r : IpAddress)
      → Elem r rows
      → (c : MapCluster) × Elem c cs × (lies_at snap size c.lat c.lon r ≡ true)
  pub each : (c : MapCluster) → Elem c cs → Tallied snap size rows c
  pub well_formed : WellFormed cs
  pub all : count_sum cs ≡ length rows
  pub iranian : iran_sum cs ≡ iranian_rows rows

module _ (status : Text) (lat lon : Float) (is_iran : Bool) where
  count_sum-add_point :
      (cs : List MapCluster) → count_sum (add_point status lat lon is_iran cs) ≡ suc (count_sum cs)
  unfolding add_point
  count_sum-add_point [] = refl
  count_sum-add_point (c ∷ cs) = ground (arith, count_sum-add_point cs)

  iran_sum-add_point :
      (cs : List MapCluster)
      → iran_sum (add_point status lat lon is_iran cs) ≡ bit is_iran + iran_sum cs
  unfolding add_point
  iran_sum-add_point [] = ground arith
  iran_sum-add_point (c ∷ cs) = ground (arith, iran_sum-add_point cs)

  -- Another cell stays absent.
  any-add_point :
      (c : MapCluster) (cs : List MapCluster)
      → same_cell lat lon c ≡ false
      → any (same_cell c.lat c.lon) cs ≡ false
      → any (same_cell c.lat c.lon) (add_point status lat lon is_iran cs) ≡ false
  unfolding add_point any
  any-add_point c [] ne h = ground arith
  any-add_point c (d ∷ cs) ne h = ground (arith, any-add_point c cs ne)

  WellFormed-add_point :
      (cs : List MapCluster) → WellFormed cs → WellFormed (add_point status lat lon is_iran cs)
  unfolding add_point any
  WellFormed-add_point [] w = (ground arith, refl, tt)
  WellFormed-add_point (c ∷ cs) (le, new, w) = elim (Bool-cases (same_cell lat lon c)) [
    | inl same ↦ rw same (ground arith, new, w)
    | inr other ↦ rw other (le, any-add_point c cs other new, WellFormed-add_point cs w)
  ]

abbrev pub HasCoordinates : IpAddress → Type 0
HasCoordinates r = (is_some r.latitude ≡ true) × (is_some r.longitude ≡ true)

add_points_total :
    (snap : ℕ → Float → Float) (status : Text) (size : ℕ) (rows : List IpAddress)
    (cs : List MapCluster)
    → ((r : IpAddress) → Elem r rows → HasCoordinates r)
    → WellFormed cs
    → (cs' : List MapCluster) × (add_points snap status size rows cs ≡ ok cs')
      × WellFormed cs'
      × (count_sum cs' ≡ length rows + count_sum cs)
      × (iran_sum cs' ≡ iranian_rows rows + iran_sum cs)
unfolding add_points filter
add_points_total snap status size [] cs have w = (cs, refl, w, omega arith, omega arith)
add_points_total snap status size (r ∷ rows) cs have w =
    let (has_lat, has_lon) = have r (inl refl) in
    elim (Option-cases r.latitude) [
      | inl missing ↦ absurd (ground arith)
      | inr (lat, e) ↦ elim (Option-cases r.longitude) [
        | inl missing ↦ absurd (ground arith)
        | inr (lon, f) ↦
            let next = add_point status (snap size lat) (snap size lon) r.is_iran cs in
            let (cs', g, w', c, i) =
              add_points_total snap status size rows next (λ x j. have x (inr j))
                (WellFormed-add_point status (snap size lat) (snap size lon) r.is_iran cs w) in
            let one = count_sum-add_point status (snap size lat) (snap size lon) r.is_iran cs in
            let iran = iran_sum-add_point status (snap size lat) (snap size lon) r.is_iran cs in
            (cs', ground arith, w', omega (arith, c, one), ground arith)
      ]
    ]

filtered_queryset-HasCoordinates :
    (status : Text) (start end : Time) (db : Db) (r : IpAddress)
    → Elem r (filtered_queryset status start end db)
    → HasCoordinates r
unfolding filtered_queryset
filtered_queryset-HasCoordinates status start end db r i =
    elim (Bool-cases (text_eq status (codes "503"))) [
      | inl a ↦ located (Elem-filter _ _ r (rw a at i)).0
      | inr a ↦ elim (Bool-cases (text_eq status (codes "iran"))) [
        | inl b ↦ located (Elem-filter _ _ r (rw (a, b) at i)).0
        | inr b ↦ elim (Bool-cases (text_eq status (codes "non_iran"))) [
          | inl c ↦ located (Elem-filter _ _ r (rw (a, b, c) at i)).0
          | inr c ↦ elim (Bool-cases (text_eq status (codes "unknown"))) [
            | inl d ↦ located (Elem-filter _ _ r (rw (a, b, c, d) at i)).0
            | inr d ↦ located (rw (a, b, c, d) at i)
          ]
        ]
      ]
    ]
  where
    located :
        Elem r (filter (λ (x : IpAddress). is_some x.latitude && is_some x.longitude) db.ips)
        → HasCoordinates r
    located j = let (_, h) = Elem-filter _ db.ips r j in (ground arith, ground arith)

Elem-map :
    {A B : Type 0} (f : A → B) (xs : List A) (b : B)
    → Elem b (map f xs)
    → (a : A) × Elem a xs × (b ≡ f a)
Elem-map f [] b i = absurd i
Elem-map f (x ∷ xs) b (inl e) = (x, inl refl, e)
Elem-map f (x ∷ xs) b (inr i) = let (a, j, e) = Elem-map f xs b i in (a, inr j, e)

-- Markers of the first 2000 rows, in their order, each where its row is.
pub record Marks (rows : List IpAddress) (points : List MapPoint) : Type 0 where
  pub keys :
      map (λ (p : MapPoint). p.ip_id) points
      ≡ map (λ (r : IpAddress). r.id) (take max_individual_points rows)
  pub count : length points ≡ min max_individual_points (length rows)
  pub of_row :
      (p : MapPoint)
      → Elem p points
      → (r : IpAddress) × Elem r rows
        × (p.ip_id ≡ r.id)
        × (p.lat ≡ r.latitude)
        × (p.lon ≡ r.longitude)
        × (p.is_iran ≡ r.is_iran)

-- What the points of a map show of its rows.
abbrev pub Answers : (ℕ → Float → Float) → ℤ → List IpAddress → MapPoints → Type 0
Answers snap zoom rows (individual points) = (is_high zoom ≡ true) × Marks rows points
Answers snap zoom rows (clusters cs) =
    (is_high zoom ≡ false) × Shows snap (grid_size_for_zoom zoom) rows cs

keys_of_points :
    (start end : Time) (db : Db) (status : Text) (rows : List IpAddress)
    → map (λ (p : MapPoint). p.ip_id) (map (point_of start end db status) rows)
      ≡ map (λ (r : IpAddress). r.id) rows
keys_of_points start end db status [] = refl
keys_of_points start end db status (r ∷ rows) =
    ap (◌∷◌ r.id) (keys_of_points start end db status rows)

individual_points-Marks :
    (start end : Time) (db : Db) (status : Text) (rows : List IpAddress)
    → Marks rows (individual_points start end db status rows)
unfolding individual_points
individual_points-Marks start end db status rows = record {
  count =
      length-map (point_of start end db status) (take max_individual_points rows)
      ∙ length-take max_individual_points rows;
  of_row = λ p i.
      let (r, j, e) =
        Elem-map (point_of start end db status) (take max_individual_points rows) p i in
      (
        r,
        Elem-take max_individual_points rows r j,
        ap (λ (x : MapPoint). x.ip_id) e,
        ap (λ (x : MapPoint). x.lat) e,
        ap (λ (x : MapPoint). x.lon) e,
        ap (λ (x : MapPoint). x.is_iran) e,
      );
  keys = keys_of_points start end db status (take max_individual_points rows);
}

-- Whatever its parameters, the map of a period answers. From zoom 8 on it has one marker for each of the first
-- 2000 addresses of its queryset, in their order, at the coordinates of the address. Below, it has clusters in
-- different cells: each address lies in the cell of one of them, and each cluster counts the addresses whose
-- latitude and longitude are moved to the centre of its cell, and the Iranian ones of them, which add up to
-- all addresses and all Iranian ones.
pub build_points_total :
    (snap : ℕ → Float → Float) (zoom : ℤ) (status : Text) (start end : Time) (db : Db)
    → (points : MapPoints) × (build_points snap
          (filtered_queryset status start end db)
          zoom
          status
          start
          end
          db
        ≡ ok points)
      × Answers snap zoom (filtered_queryset status start end db) points
unfolding build_points clustered_points
build_points_total snap zoom status start end db =
    let rows = filtered_queryset status start end db in
    elim (Bool-cases (is_high zoom)) [
      | inl high ↦ (
        individual (individual_points start end db status rows),
        rw (high, build_points) refl,
        (high, individual_points-Marks start end db status rows),
      )
      | inr low ↦
          let (cs, e, w, all, iranian) =
            add_points_total snap status (grid_size_for_zoom zoom) (order_by latest_first rows) []
              (λ r i.
                filtered_queryset-HasCoordinates status start end db r
                  (Elem-order_by latest_first rows r i))
              tt in
          (
            clusters cs,
            ground (arith, e),
            (
              low,
              record {
                covers = λ r i.
                    covered rows cs e r i
                      (filtered_queryset-HasCoordinates status start end db r i);
                each = λ c i. tallied rows c (
                    add_points-Tallied snap status (grid_size_for_zoom zoom)
                      (order_by latest_first rows) cs e w c i);
                well_formed = w;
                all = omega (arith, all, length-order_by latest_first rows);
                iranian = omega (
                  arith,
                  iranian,
                  length-filter-order_by latest_first (λ (r : IpAddress). r.is_iran) rows,
                );
              },
            ),
          )
    ]
  where
    tallied :
        (rows : List IpAddress) (c : MapCluster)
        → Tallied snap (grid_size_for_zoom zoom) (order_by latest_first rows) c
        → Tallied snap (grid_size_for_zoom zoom) rows c
    tallied rows c t =
        let lies = lies_at snap (grid_size_for_zoom zoom) c.lat c.lon in
        record {
          count = t.count ∙ length-filter-order_by latest_first lies rows;
          iran_count =
              t.iran_count
              ∙ length-filter-order_by latest_first (λ (r : IpAddress). lies r && r.is_iran) rows;
        }

    covered :
        (rows : List IpAddress) (cs : List MapCluster)
        → add_points snap status (grid_size_for_zoom zoom) (order_by latest_first rows) [] ≡ ok cs
        → (r : IpAddress) → Elem r rows
        → HasCoordinates r
        → (c : MapCluster) × Elem c cs
          × (lies_at snap (grid_size_for_zoom zoom) c.lat c.lon r ≡ true)
    covered rows cs e r i (has_lat, has_lon) = elim (Option-cases r.latitude) [
      | inl missing ↦ absurd (ground arith)
      | inr (lat, f) ↦ elim (Option-cases r.longitude) [
        | inl missing ↦ absurd (ground arith)
        | inr (lon, g) ↦
            add_points-covers snap status (grid_size_for_zoom zoom) (order_by latest_first rows) cs
              r lat lon e (order_by-Elem latest_first rows r i) f g
      ]
    ]

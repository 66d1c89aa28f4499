-- ===== src/Dashboard/Analytics/Laws.antt =====
-- The series of the dashboard.
use ip_scout.Prelude.{
  length-map, ℕ, ◌<◌, ◌≡◌, refl, sym, ◌∙◌, List, [], ◌∷◌, map, filter, length, ◌==◌, arith, Elem,
  inl, inr, subst, ◌-◌, ◌%◌, ap, Elem-filter, filter-Elem,
}
use ip_scout.Query.{nat_eq, group_counts, order_by, count_of}
use ip_scout.Query.Groups.{
  total, count_in, IsGrouped, group_counts-IsGrouped, total-group_counts, Elem-count_in,
  count_in-group_counts,
}
use ip_scout.Query.Counted.{Counts, distinct-Counts}
use ip_scout.Query.Ordered.{IsOrdered, Elem-order_by, order_by-IsOrdered}
use ip_scout.Query.Ranked.{total-order_by, order_by-IsGrouped}
use ip_scout.Models.{Time, RequestEvent}
use ip_scout.Dashboard.{Bucket}
use ip_scout.Dashboard.Analytics.{
  bucket_length, truncated, bucket_of, earlier, requests_over_time, unique_ips_of,
  unique_ips_over_time,
}

abbrev pub Ascending : List (Time × ℕ) → Type 0
Ascending [] = Unit
Ascending (x ∷ rows) = ((y : Time × ℕ) → Elem y rows → x.0 < y.0) × Ascending rows

-- The number of the events that fall into the bucket of a length that starts at a time.
abbrev pub events_at : ℕ → List RequestEvent → Time → ℕ
events_at step events t =
    length (filter (λ (e : RequestEvent). e.timestamp - e.timestamp % step == t) events)

-- A histogram of the events: its buckets ascend, each has the number of its events, and together they
-- have all of them.
pub record IsHistogram (step : ℕ) (events : List RequestEvent) (rows : List (Time × ℕ))
    : Type 0 where
  pub ascending : Ascending rows
  pub counted : (t : Time) (n : ℕ) → Elem (t, n) rows → (n ≡ events_at step events t) × (0 < n)
  pub complete : total rows ≡ length events

Ascending_lem : (rows : List (Time × ℕ)) → IsOrdered earlier rows → IsGrouped rows → Ascending rows
Ascending_lem [] o g = tt
Ascending_lem (x ∷ rows) (least, o) (p, u, g) = (
  λ y i.
      let late = least y i in
      let (found, pos) = Elem-count_in rows y.0 y.1 g i in ground (arith, at_key y.0),
  Ascending_lem rows o g,
)
  where
    at_key : (t : Time) → x.0 ≡ t → count_in t rows ≡ 0
    at_key t same = subst (λ k. count_in k rows ≡ 0) same u

count_of-map :
    (b : Bucket) (events : List RequestEvent) (t : Time)
    → count_of t (map (bucket_of b) events) ≡ events_at (bucket_length b) events t
unfolding count_of filter truncated
count_of-map b [] t = refl
count_of-map b (e ∷ events) t = ground (arith, count_of-map b events t)

pub requests_over_time-IsHistogram :
    (b : Bucket) (events : List RequestEvent)
    → IsHistogram (bucket_length b) events (requests_over_time b events)
unfolding requests_over_time
requests_over_time-IsHistogram b events =
    let keys = map (bucket_of b) events in
    let groups = group_counts keys in
    record {
      ascending =
          Ascending_lem (order_by earlier groups)
            (order_by-IsOrdered earlier (λ x y h. ground arith) (λ x y z h k. ground arith) groups)
            (order_by-IsGrouped earlier groups (group_counts-IsGrouped keys));
      counted = λ t n i.
          let (found, pos) =
            Elem-count_in groups t n (group_counts-IsGrouped keys)
              (Elem-order_by earlier groups (t, n) i) in
          (sym found ∙ count_in-group_counts t keys ∙ count_of-map b events t, pos);
      complete =
          total-order_by earlier groups ∙ total-group_counts keys ∙ length-map (bucket_of b) events;
    }

-- The second series has the buckets of the first, and for each of them the number of the different
-- addresses with an event in it.
pub record CountsIps (step : ℕ) (events : List RequestEvent) (requests rows : List (Time × ℕ))
    : Type 0 where
  pub buckets : map (λ (x : Time × ℕ). x.0) rows ≡ map (λ (x : Time × ℕ). x.0) requests
  pub counted :
      (t : Time) (n : ℕ)
      → Elem (t, n) rows
      → Counts
          (λ k.
            (e : RequestEvent) × Elem e events
            × (e.timestamp - e.timestamp % step ≡ t)
            × (e.ip_id ≡ k))
          n

unique_ips_of-Counts :
    (b : Bucket) (events : List RequestEvent) (t : Time)
    → Counts
        (λ k.
          (e : RequestEvent) × Elem e events
          × (e.timestamp - e.timestamp % bucket_length b ≡ t)
          × (e.ip_id ≡ k))
        (unique_ips_of b events t)
unfolding unique_ips_of truncated
unique_ips_of-Counts b events t =
    let c =
      distinct-Counts (λ (e : RequestEvent). e.ip_id)
        (filter (λ (e : RequestEvent). bucket_of b e == t) events) in
    record {
      keys = c.keys;
      size = c.size;
      once = c.once;
      all = λ k. (
        λ i.
            let (e, j, same) = (c.all k).0 i in
            let (j', at) = Elem-filter (λ (x : RequestEvent). bucket_of b x == t) events e j in
            (e, j', ground (arith, at), same),
        λ p.
            let (e, j, at, same) = p in
            (c.all k).1 (
              e,
              filter-Elem (λ (x : RequestEvent). bucket_of b x == t) events e j
                  (ground (arith, at)),
              same,
            ),
      );
    }

module _ (b : Bucket) (events : List RequestEvent) where
  same_buckets :
      (rows : List (Time × ℕ))
      → map (λ (x : Time × ℕ). x.0) (map (λ (x : Time × ℕ). (x.0, unique_ips_of b events x.0)) rows)
        ≡ map (λ (x : Time × ℕ). x.0) rows
  same_buckets [] = refl
  same_buckets (x ∷ rows) = ap (◌∷◌ x.0) (same_buckets rows)

  count_at :
      (rows : List (Time × ℕ)) (t : Time) (n : ℕ)
      → Elem {A = Time × ℕ} (t, n) (map (λ (x : Time × ℕ). (x.0, unique_ips_of b events x.0)) rows)
      → unique_ips_of b events t ≡ n
  count_at [] t n i = absurd i
  count_at (x ∷ rows) t n (inl here) =
      ap (λ (y : Time × ℕ). unique_ips_of b events y.0) here ∙ sym (ap (λ (y : Time × ℕ). y.1) here)
  count_at (x ∷ rows) t n (inr there) = count_at rows t n there

  pub unique-CountsIps :
      CountsIps
        (bucket_length b)
        events
        (requests_over_time b events)
        (unique_ips_over_time b events)
  unfolding unique_ips_over_time
  unique-CountsIps = record {
    buckets = same_buckets (requests_over_time b events);
    counted = λ t n i.
        subst
          (λ m.
            Counts
              (λ k.
                (e : RequestEvent) × Elem e events
                × (e.timestamp - e.timestamp % bucket_length b ≡ t)
                × (e.ip_id ≡ k))
              m)
          (count_at (requests_over_time b events) t n i) (unique_ips_of-Counts b events t);
  }

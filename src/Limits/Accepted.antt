-- ===== src/Limits/Accepted.antt =====
-- What the client reads from the address, the server accepts.
use titra.Common.{subst, lt-cases, inl, inr, ℕ, ◌-◌, ◌*◌, ◌≤◌, ◌≡◌, true, false, some, arith}
use titra.Limits.{
  Parameter, absent, string, integer, another, max_working_time_rows, max_resource_page, within,
  normalize_limit_parameter, normalize_page_parameter, normalize_bounded_pagination,
  normalize_detailed_pagination,
}

within-range :
    (most fallback n : ℕ)
    → 1 ≤ fallback
    → fallback ≤ most
    → (1 ≤ within most fallback n) × (within most fallback n ≤ most)
within-range most fallback n h k = ground (arith, h, k)

normalize_limit-range :
    (v : Parameter) → (1 ≤ normalize_limit_parameter v) × (normalize_limit_parameter v ≤ 500)
unfolding normalize_limit_parameter
normalize_limit-range absent = (omega arith, omega arith)
normalize_limit-range (string s) = ground arith
normalize_limit-range (integer true n) = ground arith
normalize_limit-range (integer false n) = ground arith
normalize_limit-range another = (omega arith, omega arith)

normalize_page-range :
    (w : Parameter) → (1 ≤ normalize_page_parameter w) × (normalize_page_parameter w ≤ 10000)
unfolding normalize_page_parameter
normalize_page-range absent = (omega arith, omega arith)
normalize_page-range (string s) = ground arith
normalize_page-range (integer true n) = (omega arith, omega arith)
normalize_page-range (integer false n) = ground arith
normalize_page-range another = (omega arith, omega arith)

accepted :
    (limit page : ℕ)
    → 1 ≤ limit
    → limit ≤ 500
    → 1 ≤ page
    → page ≤ 10000
    → (normalize_bounded_pagination
          (integer false limit)
          (integer false page)
          max_working_time_rows
          max_resource_page
        ≡ some (record { limit = limit; page = page; skip = (page - 1) * limit }))
unfolding normalize_bounded_pagination
accepted limit page a b c d = ground (arith, a, b, c, d)

detailed :
    (limit page : ℕ)
    → 1 ≤ limit
    → limit ≤ 500
    → 1 ≤ page
    → page ≤ 10000
    → normalize_detailed_pagination (integer false limit) (integer false page)
      ≡ some (some limit, (page - 1) * limit)
unfolding normalize_detailed_pagination
detailed limit page a b c d = elim (lt-cases 1 page) [
  | inl later ↦ ground (arith, a, b, c, d, later)
  | inr first ↦
      let only : 1 ≡ page = omega (arith, c, first) in
      subst
        (λ n.
          normalize_detailed_pagination (integer false limit) (integer false n)
          ≡ some (some limit, (n - 1) * limit))
        only (ground (arith, a, b))
]

-- Whatever stands in the address for the limit and the page of a list, what is sent for them is let
-- through by both checks of the server, and both skip the pages before.
pub normalized-accepted :
    (v w : Parameter)
    → (normalize_bounded_pagination
          (integer false (normalize_limit_parameter v))
          (integer false (normalize_page_parameter w))
          max_working_time_rows
          max_resource_page
        ≡ some (record {
          limit = normalize_limit_parameter v;
          page = normalize_page_parameter w;
          skip = (normalize_page_parameter w - 1) * normalize_limit_parameter v;
        }))
      × (normalize_detailed_pagination
            (integer false (normalize_limit_parameter v))
            (integer false (normalize_page_parameter w))
          ≡ some (
            some (normalize_limit_parameter v),
            (normalize_page_parameter w - 1) * normalize_limit_parameter v,
          ))
normalized-accepted v w =
    let (l1, l2) = normalize_limit-range v in
    let (p1, p2) = normalize_page-range w in
    (
      accepted (normalize_limit_parameter v) (normalize_page_parameter w) l1 l2 p1 p2,
      detailed (normalize_limit_parameter v) (normalize_page_parameter w) l1 l2 p1 p2,
    )

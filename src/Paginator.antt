-- ===== src/Paginator.antt =====
-- `Paginator` of utils/pagination.py. A page size is a natural number; the page that is asked for
-- may be any integer.
pub mod Laws
use mikrotik_bot.Prelude.{
  ℕ, zero, ◌+◌, ◌-◌, ◌*◌, ◌/◌, min, max, Bool, List, [], ◌∷◌, ltb, leb, nat_eqb, if◌then◌else◌,
  take, drop, length, Result, ok, err, ℤ, max_zero,
}

pub record Paginator {ℓ} (A : Type ℓ) : Type ℓ where
  pub items : List A
  pub page : ℕ
  pub page_size : ℕ
  pub total_pages : ℕ

pub data ZeroDivisionError : Type 0 where
  zero_division : ZeroDivisionError

-- what `slice_info` prints: no results, or the first and last position shown and the count
pub data SliceInfo : Type 0 where
  no_results : SliceInfo
  slice : ℕ → ℕ → ℕ → SliceInfo

module _ {ℓ} {A : Type ℓ} where
  -- the assignments of `__init__`; `total_pages` is at least 1, so `-` does not stop at 0
  pub assign : List A → ℕ → ℕ → Paginator A
  assign items asked page_size =
      let total_pages = max 1 ((length items + page_size - 1) / page_size) in
      record {
        items = items;
        page = if leb total_pages asked then max 0 (total_pages - 1) else asked;
        page_size = page_size;
        total_pages = total_pages;
      }

  -- __init__, whose division raises on a page size of 0
  unfoldable pub paginate : List A → ℤ → ℕ → Result ZeroDivisionError (Paginator A)
  unfolding assign
  paginate items page page_size =
      if nat_eqb page_size 0 then err zero_division else ok (assign items (max_zero page) page_size)

  unfoldable pub current_items : Paginator A → List A
  current_items p = take p.page_size (drop (p.page * p.page_size) p.items)

  slice_of : List A → Paginator A → SliceInfo
  slice_of [] p = no_results
  slice_of (x ∷ xs) p =
      slice (p.page * p.page_size + 1) (min ((p.page + 1) * p.page_size) (length p.items))
        (length p.items)

  unfoldable pub slice_info : Paginator A → SliceInfo
  unfolding slice_of
  slice_info p = slice_of p.items p

  unfoldable pub has_prev : Paginator A → Bool
  has_prev p = ltb 0 p.page

  unfoldable pub has_next : Paginator A → Bool
  has_next p = ltb p.page (p.total_pages - 1)

  unfoldable pub prev_page : Paginator A → ℕ
  prev_page p = p.page - 1

  unfoldable pub next_page : Paginator A → ℕ
  next_page p = min (p.total_pages - 1) (p.page + 1)

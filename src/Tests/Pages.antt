-- ===== src/Tests/Pages.antt =====
-- utils/pagination.py on a list of five items, two to a page.
use mikrotik_bot.Prelude.{ℕ, ◌+◌, ◌≤◌, ◌<◌, ◌≡◌, refl, List, [], ◌∷◌, arith, ok, pos, length, ltb}
use mikrotik_bot.Paginator.{
  Paginator, paginate, current_items, slice, slice_info, has_prev, has_next, prev_page, next_page,
}
use mikrotik_bot.Paginator.Laws.{IsBuilt, page_view}

abbrev five : List ℕ
five = 10 ∷ 20 ∷ 30 ∷ 40 ∷ 50 ∷ []

abbrev last_page : Paginator ℕ
last_page = record { items = five; page = 2; page_size = 2; total_pages = 3 }

last_page_shown : (paginate five (pos 99) 2 ≡ ok last_page) × (current_items last_page ≡ 50 ∷ [])
unfolding paginate current_items
last_page_shown = (refl, refl)

last_page-IsBuilt : IsBuilt last_page
last_page-IsBuilt = record { positive = omega arith; total = omega arith; inside = omega arith }

page_view_example :
    ((0 < length (current_items last_page))
      × (length (current_items last_page) ≤ 2)
      × (slice_info last_page ≡ slice 5 (4 + length (current_items last_page)) 5))
    × ((prev_page last_page < 3)
        × (next_page last_page < 3)
        × (has_prev last_page ≡ ltb (prev_page last_page) 2)
        × (has_next last_page ≡ ltb 2 (next_page last_page)))
page_view_example = page_view last_page last_page-IsBuilt (λ e. cc)

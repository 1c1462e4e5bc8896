-- ===== src/Paginator/Laws.antt =====
-- utils/pagination.py: the pages cover the list, and the navigation stays within them.
use mikrotik_bot.Prelude.{
  ℕ, zero, suc, ◌+◌, ◌-◌, ◌*◌, ◌/◌, ◌≤◌, ◌<◌, ◌≡◌, refl, sym, ◌∙◌, ap, min, max, List, [], ◌∷◌,
  ◌++◌, arith, ltb, take, drop, length, length-take, length-drop, ok, ℤ, max_zero, ◌≢◌,
}
use mikrotik_bot.Paginator.{
  Paginator, assign, paginate, current_items, slice, slice_info, slice_of, has_prev, has_next,
  prev_page, next_page,
}

-- enough pages for all items, and no page that starts past them
covers : (n s : ℕ) → 0 < s → n ≤ max 1 ((n + s - 1) / s) * s
covers n s h = grind arith

starts_inside : (n s page : ℕ) → 0 < s → 0 < n → page < max 1 ((n + s - 1) / s) → page * s < n
starts_inside n s page h positive inside = grind arith

module _ {ℓ} {A : Type ℓ} where
  take-nil : (n : ℕ) → take {A = A} n [] ≡ []
  take-nil zero = refl
  take-nil (suc n) = refl

  take-add : (m n : ℕ) (xs : List A) → take (m + n) xs ≡ take m xs ++ take n (drop m xs)
  take-add zero n xs = ap (λ k. take k xs) (omega arith)
  take-add (suc m) n [] = take-nil (suc m + n) ∙ sym (take-nil n)
  take-add (suc m) n (x ∷ xs) =
      let e : suc m + n ≡ suc (m + n) = omega arith in rw e (ap (◌∷◌ x) (take-add m n xs))

  take_all : (n : ℕ) (xs : List A) → length xs ≤ n → take n xs ≡ xs
  take_all zero [] h = refl
  take_all zero (x ∷ xs) h = absurd (omega arith)
  take_all (suc n) [] h = refl
  take_all (suc n) (x ∷ xs) h = ap (◌∷◌ x) (take_all n xs (omega arith))

  -- A paginator as its constructor leaves it.
  pub record IsBuilt (p : Paginator A) : Type ℓ where
    pub positive : 0 < p.page_size
    pub total : p.total_pages ≡ max 1 ((length p.items + p.page_size - 1) / p.page_size)
    pub inside : p.page < p.total_pages

  paginate_total :
      (items : List A) (page : ℤ) (page_size : ℕ)
      → 0 < page_size
      → (p : Paginator A) × (paginate items page page_size ≡ ok p)
  unfolding paginate
  paginate_total items page page_size positive =
      (assign items (max_zero page) page_size, ground arith)

  pub paginate-IsBuilt :
      (items : List A) (page : ℤ) (page_size : ℕ) (p : Paginator A)
      → paginate items page page_size ≡ ok p
      → IsBuilt p × (p.items ≡ items) × (p.page_size ≡ page_size)
  unfolding paginate
  paginate-IsBuilt items page page_size p h = ground arith

  -- the contents of the first `n` pages, one after the other
  pub first_pages : Paginator A → ℕ → List A
  first_pages p zero = []
  first_pages p (suc n) = first_pages p n ++ current_items (record p { page = n })

  first_pages-take : (p : Paginator A) (n : ℕ) → first_pages p n ≡ take (n * p.page_size) p.items
  unfolding first_pages current_items
  first_pages-take p zero = let e : 0 * p.page_size ≡ 0 = omega arith in rw e
  first_pages-take p (suc n) =
      let e : suc n * p.page_size ≡ n * p.page_size + p.page_size = omega arith in
      rw (first_pages-take p n, e) (sym (take-add (n * p.page_size) p.page_size p.items))

  -- For any list, any integer as the page and a positive page size: the constructor returns, the
  -- page is one of the pages, and all pages one after the other are the list, each item once and in
  -- order.
  pub pages_partition :
      (items : List A) (page : ℤ) (page_size : ℕ)
      → 0 < page_size
      → (p : Paginator A) × (paginate items page page_size ≡ ok p)
        × (p.page < p.total_pages)
        × (first_pages p p.total_pages ≡ items)
  pages_partition items page page_size positive =
      let (p, made) = paginate_total items page page_size positive in
      let (built, same, same_size) = paginate-IsBuilt items page page_size p made in
      (
        p,
        made,
        built.inside,
        first_pages-take p p.total_pages
            ∙ rw (built.total)
                (take_all _ p.items (covers (length p.items) p.page_size built.positive))
            ∙ same,
      )

  length-current_items :
      (p : Paginator A)
      → length (current_items p) ≡ min p.page_size (length p.items - p.page * p.page_size)
  unfolding current_items
  length-current_items p = omega (
    arith,
    length-take p.page_size (drop (p.page * p.page_size) p.items),
    length-drop (p.page * p.page_size) p.items,
  )

  slice_info_lem :
      (xs : List A) (p : Paginator A)
      → xs ≢ []
      → slice_of xs p
        ≡ slice
            (p.page * p.page_size + 1)
            (min ((p.page + 1) * p.page_size) (length p.items))
            (length p.items)
  unfolding slice_of
  slice_info_lem [] p h = absurd (h refl)
  slice_info_lem (x ∷ xs) p h = refl

  length-pos : (xs : List A) → xs ≢ [] → 0 < length xs
  length-pos [] h = absurd (h refl)
  length-pos (x ∷ xs) h = omega arith

  -- On a page of a built paginator over a non-empty list there is at least one item and at most
  -- `page_size`, and `slice_info` numbers exactly the items shown.
  pub slice_shown :
      (p : Paginator A)
      → IsBuilt p
      → p.items ≢ []
      → (0 < length (current_items p))
        × (length (current_items p) ≤ p.page_size)
        × (slice_info p
            ≡ slice
                (p.page * p.page_size + 1)
                (p.page * p.page_size + length (current_items p))
                (length p.items))
  unfolding slice_info
  slice_shown p built some_items = (
    omega (arith, built.positive, shown, inside),
    omega (arith, shown),
    slice_info_lem p.items p some_items
        ∙ ap (λ n. slice (p.page * p.page_size + 1) n (length p.items))
            (omega (arith, shown, inside)),
  )
    where
      shown : length (current_items p) ≡ min p.page_size (length p.items - p.page * p.page_size)
      shown = length-current_items p

      inside : p.page * p.page_size < length p.items
      inside =
          starts_inside (length p.items) p.page_size p.page built.positive
            (length-pos p.items some_items) (omega (arith, built.inside, built.total))

  -- The two buttons stay within the pages, and each is offered exactly if it leads elsewhere.
  pub navigation :
      (p : Paginator A)
      → IsBuilt p
      → (prev_page p < p.total_pages)
        × (next_page p < p.total_pages)
        × (has_prev p ≡ ltb (prev_page p) p.page)
        × (has_next p ≡ ltb p.page (next_page p))
  unfolding prev_page next_page has_prev has_next
  navigation p built = ground arith

  -- On a page of a built paginator over a non-empty list there is at least one item and at most
  -- `page_size`, and `slice_info` numbers exactly the items shown. The previous and the next page
  -- are pages, and each button is offered exactly if it leads to another page.
  pub page_view :
      (p : Paginator A)
      → IsBuilt p
      → p.items ≢ []
      → ((0 < length (current_items p))
          × (length (current_items p) ≤ p.page_size)
          × (slice_info p
              ≡ slice
                  (p.page * p.page_size + 1)
                  (p.page * p.page_size + length (current_items p))
                  (length p.items)))
        × ((prev_page p < p.total_pages)
            × (next_page p < p.total_pages)
            × (has_prev p ≡ ltb (prev_page p) p.page)
            × (has_next p ≡ ltb p.page (next_page p)))
  page_view p built some_items = (slice_shown p built some_items, navigation p built)

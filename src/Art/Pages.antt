-- ===== src/Art/Pages.antt =====
-- `scan_prefix_page` of src/art.rs: the pages of a scan.
use neural_sgdb.Prelude.{
  ℕ, zero, suc, ◌+◌, ◌≤◌, List, [], ◌∷◌, ◌++◌, length, take, drop, leb, ◌≡◌, refl, sym, ap, ◌∙◌,
  inl, inr, arith, Bool-cases,
}
use neural_sgdb.Art.Index.{ArtIndex, scan_prefix, sort_entries, scan_prefix_page}
use neural_sgdb.Art.Paths.{drop-drop}
use neural_sgdb.Art.Rows.{Entry}

drop_past : (n : ℕ) (es : List Entry) → length es ≤ n → drop n es ≡ []
drop_past zero [] h = refl
drop_past zero (e ∷ es) h = absurd (omega arith)
drop_past (suc n) [] h = refl
drop_past (suc n) (e ∷ es) h = drop_past n es (omega arith)

take_nothing : (n : ℕ) → take {A = Entry} n [] ≡ []
take_nothing zero = refl
take_nothing (suc n) = refl

take-add : (l m : ℕ) (es : List Entry) → take l es ++ take m (drop l es) ≡ take (l + m) es
take-add zero m es = ap (λ k. take k es) (omega arith)
take-add (suc l) m [] = take_nothing m ∙ sym (take_nothing (suc l + m))
take-add (suc l) m (e ∷ es) =
    let n : suc l + m ≡ suc (l + m) = omega arith in rw n (ap (λ k. e ∷ k) (take-add l m es))

page_lem :
    (t : ArtIndex) (prefix : List ℕ) (offset limit : ℕ)
    → scan_prefix_page t prefix offset limit
      ≡ take limit (drop offset (sort_entries (scan_prefix t prefix)))
unfolding scan_prefix_page
page_lem t prefix offset limit =
    let all = sort_entries (scan_prefix t prefix) in
    elim (Bool-cases (leb (length all) offset)) [
      | inl e ↦ rw e (rw (drop_past offset all (ground (arith, e))) (sym (take_nothing limit)))
      | inr e ↦ rw e refl
    ]

-- A page and the page that starts behind it are together the page of both limits: pages neither
-- overlap nor leave an entry out.
pub scan_prefix_page-append :
    (t : ArtIndex) (prefix : List ℕ) (offset l m : ℕ)
    → scan_prefix_page t prefix offset l ++ scan_prefix_page t prefix (offset + l) m
      ≡ scan_prefix_page t prefix offset (l + m)
scan_prefix_page-append t prefix offset l m =
    let all = sort_entries (scan_prefix t prefix) in
    rw
      (
        page_lem t prefix offset l,
        page_lem t prefix (offset + l) m,
        page_lem t prefix offset (l + m),
      )
      (rw (← drop-drop offset l all) (take-add l m (drop offset all)))

-- ===== src/Art/Slots.antt =====
-- The slots of an inner node of src/art.rs as a map from bytes to children: what each change of the
-- slots does to the lookup of a byte.
use neural_sgdb.Prelude.{
  ℕ, ◌+◌, Option, none, some, List, length, drop, ◌==◌, if◌then◌else◌, ◌≡◌, refl, ap, ◌∙◌, ◌⊎◌, inl,
  inr, arith,
}
use neural_sgdb.Art.{
  Width, Node, inner, Kids, nil, kid, next_byte, get_rec, get_kids, add_last, add_at_byte,
  in_byte_order,
}
use neural_sgdb.Art.Paths.{byte_after, next_byte-byte_after}
use neural_sgdb.Art.Removal.{remove_slot, last_first, swap_remove}

unfoldable pub find_kid : Kids → ℕ → Option Node
find_kid nil x = none
find_kid (kid b c ks) x = if b == x then some c else find_kid ks x

-- No two slots have the same byte.
unfoldable pub Distinct : Kids → Type 0
Distinct nil = Unit
Distinct (kid b c ks) = (find_kid ks b ≡ none) × Distinct ks

abbrev pub get_found : Option Node → List ℕ → ℕ → Option ℕ
get_found none key d = none
get_found (some c) key d = get_rec c key d

pub get_kids-find_kid :
    (ks : Kids) (b : ℕ) (key : List ℕ) (d : ℕ)
    → get_kids ks b key d ≡ get_found (find_kid ks b) key d
unfolding find_kid get_kids
get_kids-find_kid nil b key d = refl
get_kids-find_kid (kid b' c ks) b key d = ground (arith, get_kids-find_kid ks b key d)

-- The lookup goes on in the child of a byte, if there is a byte and a child.
abbrev pub get_below : Option ℕ → Kids → List ℕ → ℕ → Option ℕ
get_below none ks key d = none
get_below (some b) ks key d = get_found (find_kid ks b) key d

get_below_lem :
    (o : Option ℕ) (ks : Kids) (key : List ℕ) (d : ℕ)
    → elim o [ none ↦ none | some b ↦ get_kids ks b key d ] ≡ get_below o ks key d
get_below_lem none ks key d = refl
get_below_lem (some b) ks key d = get_kids-find_kid ks b key d

pub get_rec-inner :
    (w : Width) (p : List ℕ) (ks : Kids) (key : List ℕ) (d : ℕ)
    → get_rec (inner w p ks) key d ≡ get_below (byte_after p (drop d key)) ks key (d + length p + 1)
unfolding get_rec
get_rec-inner w p ks key d =
    get_below_lem (next_byte p key d) ks key (d + length p + 1)
    ∙ ap (λ o. get_below o ks key (d + length p + 1)) (next_byte-byte_after p key d)

pub find_kid-add_last :
    (ks : Kids) (b : ℕ) (c : Node) (x : ℕ)
    → find_kid ks b ≡ none
    → find_kid (add_last ks b c) x ≡ (if b == x then some c else find_kid ks x)
unfolding find_kid add_last
find_kid-add_last nil b c x h = refl
find_kid-add_last (kid b' c' ks) b c x h = ground (arith, find_kid-add_last ks b c x)

pub find_kid-add_at_byte :
    (ks : Kids) (b : ℕ) (c : Node) (x : ℕ)
    → find_kid ks b ≡ none
    → find_kid (add_at_byte b c ks) x ≡ (if b == x then some c else find_kid ks x)
unfolding find_kid add_at_byte
find_kid-add_at_byte nil b c x h = refl
find_kid-add_at_byte (kid b' c' ks) b c x h = ground (arith, find_kid-add_at_byte ks b c x)

pub find_kid-in_byte_order :
    (ks : Kids) (x : ℕ) → Distinct ks → find_kid (in_byte_order ks) x ≡ find_kid ks x
unfolding find_kid in_byte_order Distinct
find_kid-in_byte_order nil x h = refl
find_kid-in_byte_order (kid b c ks) x h =
    let same = find_kid-in_byte_order ks in
    find_kid-add_at_byte (in_byte_order ks) b c x (same b h.1 ∙ h.0)
    ∙ ap (λ o. if b == x then some c else o) (same x h.1)

pub find_kid-remove_slot :
    (ks : Kids) (b x : ℕ)
    → Distinct ks
    → find_kid (remove_slot ks b) x ≡ (if b == x then none else find_kid ks x)
unfolding find_kid remove_slot Distinct
find_kid-remove_slot nil b x h = ground arith
find_kid-remove_slot (kid b' c ks) b x h = ground (arith, find_kid-remove_slot ks b x, h.0, h.1)

pub Kids-cases :
    (ks : Kids) → (ks ≡ nil) ⊎ ((b : ℕ) × (c : Node) × (rest : Kids) × (ks ≡ kid b c rest))
Kids-cases nil = inl refl
Kids-cases (kid b c rest) = inr (b, c, rest, refl)

pub find_kid-last_first :
    (ks : Kids) (b : ℕ) (c : Node) (x : ℕ)
    → find_kid ks b ≡ none
    → Distinct ks
    → find_kid (last_first b c ks) x ≡ find_kid (kid b c ks) x
unfolding find_kid last_first Distinct
find_kid-last_first nil b c x h k = refl
find_kid-last_first (kid b' c' ks) b c x h k =
    let ih : (y : ℕ) → find_kid (last_first b' c' ks) y ≡ find_kid (kid b' c' ks) y =
      λ y. find_kid-last_first ks b' c' y k.0 k.1 in
    elim (Kids-cases (last_first b' c' ks)) [
      | inl e ↦ rw e (ground (arith, ih x, ap (λ o. find_kid o x) e))
      | inr (l, d, rest, e) ↦
          rw e (ground (arith, h, ih x, ih b, ap (λ o. find_kid o x) e, ap (λ o. find_kid o b) e))
    ]

pub find_kid-swap_remove :
    (ks : Kids) (b x : ℕ)
    → Distinct ks
    → find_kid (swap_remove ks b) x ≡ (if b == x then none else find_kid ks x)
unfolding find_kid swap_remove Distinct
find_kid-swap_remove nil b x h = ground arith
find_kid-swap_remove (kid b' c nil) b x h = ground arith
find_kid-swap_remove (kid b' c (kid b'' c' ks)) b x h = ground (
  arith,
  find_kid-last_first ks b'' c' x h.1.0 h.1.1,
  find_kid-swap_remove (kid b'' c' ks) b x h.1,
  h.0,
)

-- ===== src/Text/Order.antt =====
-- The order of Python's texts, by code points, and lists that ascend in it: what `sorted(set(…))`
-- returns is the one ascending list that holds the same texts.
use Prim.Native.Char.{code}
use Prim.Native.String as NativeString
use text.Mathlib.TextEquality.{Char-path}
use fastgeoapi.Base.{
  String, ◌≡◌, ◌⊎◌, ◌↔◌, inl, inr, refl, sym, ap₂, Bool, true, false, ◌&&◌, ◌||◌, List, [], ◌∷◌,
  ◌++◌, arith, ltb, nat_eq, All, Bool-cases, ◌∙◌, if◌then◌else◌,
}

-- s < t
unfoldable pub less : String → String → Bool
less s NativeString.[] = false
less NativeString.[] (NativeString.◌∷◌ d t) = true
less (NativeString.◌∷◌ c s) (NativeString.◌∷◌ d t) =
    ltb (code c) (code d) || nat_eq (code c) (code d) && less s t

pub less_irrefl : (s : String) → less s s ≡ false
unfolding less
less_irrefl NativeString.[] = refl
less_irrefl (NativeString.◌∷◌ c s) = ground (arith, less_irrefl s)

pub less_trans : (s t u : String) → less s t ≡ true → less t u ≡ true → less s u ≡ true
unfolding less
less_trans s NativeString.[] u h k = cc
less_trans s (NativeString.◌∷◌ d t) NativeString.[] h k = cc
less_trans NativeString.[] (NativeString.◌∷◌ d t) (NativeString.◌∷◌ e u) h k = refl
less_trans (NativeString.◌∷◌ c s) (NativeString.◌∷◌ d t) (NativeString.◌∷◌ e u) h k =
    ground (arith, less_trans s t u)

pub less_total : (s t : String) → less s t ≡ false → less t s ≡ false → s ≡ t
unfolding less
less_total NativeString.[] NativeString.[] h k = refl
less_total NativeString.[] (NativeString.◌∷◌ d t) h k = cc
less_total (NativeString.◌∷◌ c s) NativeString.[] h k = cc
less_total (NativeString.◌∷◌ c s) (NativeString.◌∷◌ d t) h k =
    ap₂ NativeString.◌∷◌ (Char-path c d (ground arith))
      (less_total s t (ground arith) (ground arith))

-- x in xs
abbrev pub IsIn : {A : Type 0} → A → List A → Type 0
IsIn x [] = ⊥
IsIn x (y ∷ ys) = (y ≡ x) ⊎ IsIn x ys

-- Each text comes before all that follow it.
abbrev pub Ascends : List String → Type 0
Ascends [] = Unit
Ascends (x ∷ xs) = All (λ y. less x y ≡ true) xs × Ascends xs

unfoldable pub insert : String → List String → List String
unfolding less
insert x [] = x ∷ []
insert x (y ∷ ys) =
    let rest = insert x ys in if less y x then y ∷ rest else if less x y then x ∷ y ∷ ys else y ∷ ys

-- sorted(set(xs))
unfoldable pub sorted_set : List String → List String
unfolding insert
sorted_set [] = []
sorted_set (x ∷ xs) = insert x (sorted_set xs)

insert-cases :
    (x y : String)
    → (less y x ≡ true)
      ⊎ ((less y x ≡ false) × (less x y ≡ true))
      ⊎ ((less y x ≡ false) × (less x y ≡ false) × (y ≡ x))
insert-cases x y = elim (Bool-cases (less y x)) [
  | inl before ↦ inl before
  | inr not_before ↦ elim (Bool-cases (less x y)) [
    | inl after ↦ inr (inl (not_before, after))
    | inr not_after ↦ inr (inr (not_before, not_after, less_total y x not_before not_after))
  ]
]

IsIn-insert : (z x : String) (ys : List String) → IsIn z (insert x ys) ↔ ((x ≡ z) ⊎ IsIn z ys)
unfolding insert
IsIn-insert z x [] = (λ h. h, λ h. h)
IsIn-insert z x (y ∷ ys) = elim (insert-cases x y) [
  | inl before ↦
      let ih = IsIn-insert z x ys in
      rw before (
        λ h. elim h [
          | inl e ↦ inr (inl e)
          | inr r ↦ elim (ih.0 r) [ inl e ↦ inl e | inr r ↦ inr (inr r) ]
        ],
        λ h. elim h [
          | inl e ↦ inr (ih.1 (inl e))
          | inr r ↦ elim r [ inl e ↦ inl e | inr r ↦ inr (ih.1 (inr r)) ]
        ],
      )
  | inr (inl (not_before, after)) ↦ rw (not_before, after) (λ h. h, λ h. h)
  | inr (inr (not_before, not_after, same)) ↦
      rw (not_before, not_after) (λ h. inr h, λ h. elim h [ inl e ↦ inl (same ∙ e) | inr r ↦ r ])
]

-- The list holds what it was made of.
pub IsIn-sorted_set : (z : String) (xs : List String) → IsIn z (sorted_set xs) ↔ IsIn z xs
unfolding sorted_set
IsIn-sorted_set z [] = (λ h. h, λ h. h)
IsIn-sorted_set z (x ∷ xs) =
    let ih = IsIn-sorted_set z xs in
    let one = IsIn-insert z x (sorted_set xs) in
    (
      λ h. elim (one.0 h) [ inl e ↦ inl e | inr r ↦ inr (ih.0 r) ],
      λ h. one.1 (elim h [ inl e ↦ inl e | inr r ↦ inr (ih.1 r) ]),
    )

abbrev IsBelow : String → List String → Type 0
IsBelow x = All (λ y. less x y ≡ true)

IsBelow-trans : (x y : String) (ys : List String) → less x y ≡ true → IsBelow y ys → IsBelow x ys
IsBelow-trans x y [] h b = tt
IsBelow-trans x y (z ∷ zs) h (k, b) = (less_trans x y z h k, IsBelow-trans x y zs h b)

IsBelow-insert :
    (x y : String) (ys : List String) → less y x ≡ true → IsBelow y ys → IsBelow y (insert x ys)
unfolding insert
IsBelow-insert x y [] h b = (h, tt)
IsBelow-insert x y (z ∷ zs) h (k, b) = elim (insert-cases x z) [
  | inl before ↦ rw before (k, IsBelow-insert x y zs h b)
  | inr (inl (not_before, after)) ↦ rw (not_before, after) (h, (k, b))
  | inr (inr (not_before, not_after, same)) ↦ rw (not_before, not_after) (k, b)
]

insert-Ascends : (x : String) (ys : List String) → Ascends ys → Ascends (insert x ys)
unfolding insert
insert-Ascends x [] a = (tt, tt)
insert-Ascends x (y ∷ ys) (b, a) = elim (insert-cases x y) [
  | inl before ↦ rw before (IsBelow-insert x y ys before b, insert-Ascends x ys a)
  | inr (inl (not_before, after)) ↦
      rw (not_before, after) ((after, IsBelow-trans x y ys after b), (b, a))
  | inr (inr (not_before, not_after, same)) ↦ rw (not_before, not_after) (b, a)
]

pub sorted_set-Ascends : (xs : List String) → Ascends (sorted_set xs)
unfolding sorted_set
sorted_set-Ascends [] = tt
sorted_set-Ascends (x ∷ xs) = insert-Ascends x (sorted_set xs) (sorted_set-Ascends xs)

IsBelow-IsIn : (x z : String) (ys : List String) → IsBelow x ys → IsIn z ys → less x z ≡ true
IsBelow-IsIn x z [] b h = elim h [ ]
IsBelow-IsIn x z (y ∷ ys) (h, b) (inl e) = rw (← e) h
IsBelow-IsIn x z (y ∷ ys) (h, b) (inr r) = IsBelow-IsIn x z ys b r

-- An element of an ascending list that is also in one with a head is that head or behind it.
heads_eq :
    (x y : String) (xs ys : List String)
    → Ascends (x ∷ xs)
    → Ascends (y ∷ ys)
    → ((z : String) → IsIn z (x ∷ xs) ↔ IsIn z (y ∷ ys))
    → x ≡ y
heads_eq x y xs ys (b, a) (c, d) same = elim ((same x).0 (inl refl)) [
  | inl e ↦ sym e
  | inr r ↦ elim ((same y).1 (inl refl)) [
    | inl e ↦ e
    | inr l ↦
        let up = IsBelow-IsIn x y xs b l in
        let down = IsBelow-IsIn y x ys c r in
        absurd (ground (arith, less_irrefl x, less_trans x y x up down))
  ]
]

tails_in :
    (x : String) (xs ys : List String)
    → Ascends (x ∷ xs)
    → ((z : String) → IsIn z (x ∷ xs) → IsIn z (x ∷ ys))
    → (z : String) → IsIn z xs
    → IsIn z ys
tails_in x xs ys (b, a) same z h = elim (same z (inr h)) [
  | inl e ↦
      let up = IsBelow-IsIn x z xs b h in
      let self : less z z ≡ true = rw e at up in absurd (ground (arith, less_irrefl z))
  | inr r ↦ r
]

-- Two ascending lists that hold the same texts are one list.
pub Ascends-unique :
    (xs ys : List String)
    → Ascends xs
    → Ascends ys
    → ((z : String) → IsIn z xs ↔ IsIn z ys)
    → xs ≡ ys
Ascends-unique [] [] a b same = refl
Ascends-unique [] (y ∷ ys) a b same = absurd ((same y).1 (inl refl))
Ascends-unique (x ∷ xs) [] a b same = absurd ((same x).0 (inl refl))
Ascends-unique (x ∷ xs) (y ∷ ys) a b same =
    let e = heads_eq x y xs ys a b same in
    let b' : Ascends (x ∷ ys) = rw (← e) at b in
    let same' : (z : String) → IsIn z (x ∷ xs) ↔ IsIn z (x ∷ ys) = rw (← e) at same in
    ap₂ ◌∷◌ e (
      Ascends-unique xs ys a.1 b.1
        (λ z. (tails_in x xs ys a (λ w. (same' w).0) z, tails_in x ys xs b' (λ w. (same' w).1) z)))

pub IsIn-append : (z : String) (xs ys : List String) → IsIn z (xs ++ ys) ↔ (IsIn z xs ⊎ IsIn z ys)
IsIn-append z [] ys = (λ h. inr h, λ h. elim h [ inl e ↦ elim e [ ] | inr r ↦ r ])
IsIn-append z (x ∷ xs) ys =
    let ih = IsIn-append z xs ys in
    (
      λ h. elim h [
        | inl e ↦ inl (inl e)
        | inr r ↦ elim (ih.0 r) [ inl l ↦ inl (inr l) | inr r ↦ inr r ]
      ],
      λ h. elim h [
        | inl l ↦ elim l [ inl e ↦ inl e | inr r ↦ inr (ih.1 (inl r)) ]
        | inr r ↦ inr (ih.1 (inr r))
      ],
    )

-- ===== src/Mcp/Settings/Consents.antt =====
-- What the settings of the MCP provider come to.
use fastgeoapi.Base.{
  ℕ, ◌<◌, String, ◌≡◌, ◌↔◌, refl, true, false, Option, none, some, arith, inl, inr, eq_iff,
  Bool-cases, ◌==◌,
}
use Prim.Native.String.{[], ◌∷◌}
use text.Mathlib.TextEquality.{Char-path}
use fastgeoapi.Base.Int.{ℤ}
use fastgeoapi.Text.{strip_space, lower_equals}
use fastgeoapi.Mcp.Settings.{always, external, never, coerce_consent_mode, client_token_ttl}

-- The text is the word, in upper or lower case and with white space around it.
abbrev pub Says : String → Option String → Type 0
Says word none = ⊥
Says word (some text) = lower_equals (strip_space text) word ≡ true

lower_equals_unique : (s t u : String) → lower_equals s t ≡ true → lower_equals s u ≡ true → t ≡ u
unfolding lower_equals
lower_equals_unique [] [] [] h k = refl
lower_equals_unique [] [] (e ∷ u) h k = cc
lower_equals_unique [] (d ∷ t) u h k = cc
lower_equals_unique (c ∷ s) [] u h k = cc
lower_equals_unique (c ∷ s) (d ∷ t) [] h k = cc
lower_equals_unique (c ∷ s) (d ∷ t) (e ∷ u) h k =
    let heads : d ≡ e = Char-path d e (ground arith) in
    let tails : t ≡ u = lower_equals_unique s t u (ground arith) (ground arith) in cc

-- A text that says one word says no other.
says_one :
    (s word other_word : String)
    → (word == other_word) ≡ false
    → lower_equals s word ≡ true
    → lower_equals s other_word ≡ false
says_one s word other_word differ h = elim (Bool-cases (lower_equals s other_word)) [
  | inl both ↦
      let same = lower_equals_unique s word other_word h both in
      absurd (ground (arith, (eq_iff word other_word).1 same))
  | inr k ↦ k
]

-- The consent page is always shown exactly for the word "always", left to the identity provider
-- exactly for "external" and never shown exactly for "never", each in upper or lower case and with
-- white space around it; for every other text, and for none, the approval is remembered.
pub coerce_consent_mode_iff :
    (mode : Option String)
    → ((coerce_consent_mode mode ≡ always) ↔ Says "always" mode)
      × ((coerce_consent_mode mode ≡ external) ↔ Says "external" mode)
      × ((coerce_consent_mode mode ≡ never) ↔ Says "never" mode)
unfolding coerce_consent_mode
coerce_consent_mode_iff none =
    ((λ h. cc, λ h. elim h [ ]), (λ h. cc, λ h. elim h [ ]), (λ h. cc, λ h. elim h [ ]))
coerce_consent_mode_iff (some mode) =
    let s = strip_space mode in
    ground (
      arith,
      says_one s "always" "external" refl,
      says_one s "always" "never" refl,
      says_one s "remember" "external" refl,
      says_one s "remember" "never" refl,
      says_one s "external" "never" refl,
      says_one s "remember" "always" refl,
    )

-- The lifetime that is handed to fastmcp is never zero.
pub client_token_ttl_pos : (expiry : Option ℤ) {n : ℕ} → client_token_ttl expiry ≡ some n → 0 < n
unfolding client_token_ttl
client_token_ttl_pos expiry h = ground arith

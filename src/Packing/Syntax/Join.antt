-- ===== src/Packing/Syntax/Join.antt =====
-- split_top_level of validate-sculptor-materialization-audit.py on joined entries.
use golem_riscv_sim.Packing.Syntax.{
  finish_entries, split_top_level, Scanner, idle, is_empty_text, is_separator, scan, split_from,
  strip,
}
use golem_riscv_sim.Common.{
  All, sym, >>=-eq-some, Bool-cases, ap, inl, inr, ◌∙◌, List, Option, [], false, none, refl, some,
  true, ℕ, ◌++◌, ◌>>=◌, ◌∷◌, ◌≡◌,
}
use mathlib.Core.Option.{some-injective}
use mathlib.Core.List.{append-nil, append_assoc}

-- The scanner over a text without a comma that separates.
unfoldable pub scan_entry : Scanner → List ℕ → Option Scanner
unfolding scan is_separator
scan_entry s [] = some s
scan_entry s (c ∷ text) = elim (is_separator s c) [
  | true ↦ none
  | false ↦ scan s c >>= λ s'. scan_entry s' text
]

-- An entry: quotes and delimiters are closed, no comma stands outside them, and there is neither
-- space around it nor is it empty.
pub record IsEntry (e : List ℕ) : Type 0 where
  pub closed : scan_entry idle e ≡ some idle
  pub stripped : strip e ≡ e
  pub filled : is_empty_text e ≡ false

unfoldable pub join : List (List ℕ) → List ℕ
join [] = []
join (e ∷ []) = e
join (e ∷ f ∷ es) = e ++ b',' ∷ join (f ∷ es)

scan_entry_nil : (s : Scanner) → some s ≡ scan_entry s []
unfolding scan_entry
scan_entry_nil s = refl

pub scan_entry_inside :
    (s : Scanner) (c : ℕ) (e : List ℕ)
    → is_separator s c ≡ false
    → scan_entry s (c ∷ e) ≡ (scan s c >>= λ t. scan_entry t e)
unfolding scan_entry
scan_entry_inside s c e inside =
    ap (λ b. elim b [ true ↦ none | false ↦ scan s c >>= λ t. scan_entry t e ]) inside

scan_entry_ends :
    (s : Scanner) (c : ℕ) (e : List ℕ) → is_separator s c ≡ true → scan_entry s (c ∷ e) ≡ none
unfolding scan_entry
scan_entry_ends s c e ends =
    ap (λ b. elim b [ true ↦ none | false ↦ scan s c >>= λ t. scan_entry t e ]) ends

split_from_inside :
    (s : Scanner) (taken : List ℕ) (entries : List (List ℕ)) (c : ℕ) (text : List ℕ)
    → is_separator s c ≡ false
    → split_from s taken entries (c ∷ text)
      ≡ (scan s c >>= λ t. split_from t (taken ++ c ∷ []) entries text)
unfolding split_from
split_from_inside s taken entries c text inside =
    ap
      (λ b. elim b [
        | true ↦ split_from s [] (entries ++ strip taken ∷ []) text
        | false ↦ scan s c >>= λ t. split_from t (taken ++ c ∷ []) entries text
      ])
      inside

split_from-scan_entry :
    (s s' : Scanner) (taken : List ℕ) (entries : List (List ℕ)) (e text : List ℕ)
    → scan_entry s e ≡ some s'
    → split_from s taken entries (e ++ text) ≡ split_from s' (taken ++ e) entries text
split_from-scan_entry s s' taken entries [] text h =
    ap (λ t. split_from t taken entries text) (some-injective s s' (scan_entry_nil s ∙ h))
    ∙ ap (λ p. split_from s' p entries text) (sym (append-nil taken))
split_from-scan_entry s s' taken entries (c ∷ e) text h = elim (Bool-cases (is_separator s c)) [
  | inl ends ↦ absurd (let refused = sym (scan_entry_ends s c e ends) ∙ h in cc)
  | inr inside ↦
      let (t, scanned, h') =
        >>=-eq-some (scan s c) (λ t. scan_entry t e) (sym (scan_entry_inside s c e inside) ∙ h) in
      split_from_inside s taken entries c (e ++ text) inside
      ∙ ap (λ o. o >>= λ t. split_from t (taken ++ c ∷ []) entries (e ++ text)) scanned
      ∙ split_from-scan_entry t s' (taken ++ c ∷ []) entries e text h'
      ∙ ap (λ p. split_from s' p entries text) (append_assoc taken (c ∷ []) e)
]

-- The last entry.
split_last :
    (entries : List (List ℕ)) (e : List ℕ)
    → IsEntry e
    → split_from idle [] entries e ≡ some (entries ++ e ∷ [])
unfolding split_from finish_entries
split_last entries e ok =
    let test : is_empty_text (strip e) ≡ false = ap is_empty_text ok.stripped ∙ ok.filled in
    ap (split_from idle [] entries) (sym (append-nil e))
    ∙ split_from-scan_entry idle idle [] entries e [] ok.closed
    ∙ rw test (ap (λ x. some (entries ++ x ∷ [])) ok.stripped)

split_comma :
    (entries : List (List ℕ)) (e text : List ℕ)
    → IsEntry e
    → split_from idle [] entries (e ++ b',' ∷ text) ≡ split_from idle [] (entries ++ e ∷ []) text
unfolding split_from
split_comma entries e text ok =
    split_from-scan_entry idle idle [] entries e (b',' ∷ text) ok.closed
    ∙ ap (λ x. split_from idle [] (entries ++ x ∷ []) text) ok.stripped

split_joined :
    (entries es : List (List ℕ)) (e : List ℕ)
    → All IsEntry (e ∷ es)
    → split_from idle [] entries (join (e ∷ es)) ≡ some (entries ++ e ∷ es)
unfolding join
split_joined entries [] e (ok, _) = split_last entries e ok
split_joined entries (f ∷ es) e (ok, oks) =
    split_comma entries e (join (f ∷ es)) ok
    ∙ split_joined (entries ++ e ∷ []) es f oks
    ∙ ap some (append_assoc entries (e ∷ []) (f ∷ es))

-- If entries have all quotes and delimiters closed, no comma outside of them, no space around
-- them and are not empty, then split_top_level of the entries joined by commas returns them.
pub split_top_level-join :
    (es : List (List ℕ)) → All IsEntry es → split_top_level (join es) ≡ some es
unfolding split_top_level split_from finish_entries join
split_top_level-join [] oks = refl
split_top_level-join (e ∷ es) oks = split_joined [] es e oks

-- ===== src/Report/Markers.antt =====
-- ReplaceBetweenMarkers of internal/report/table.go.
use sluice_gate_telemetery_i.Base.{
  ℕ, zero, suc, ◌+◌, ◌-◌, Bytes, codes, beq, beq_eq, ◌≡◌, refl, sym, ap, subst, ◌∙◌, [], ◌∷◌, ◌++◌,
  length, Bool, true, false, ◌&&◌, Option, none, some, some_inj, ltb, leb, if◌then◌else◌, arith,
}
use sluice_gate_telemetery_i.Event.{Error, Result, ok, err}

abbrev pub marker_begin : Bytes
marker_begin = codes "<!-- RESULTS:BEGIN -->"

abbrev pub marker_end : Bytes
marker_end = codes "<!-- RESULTS:END -->"

-- `s[:n]` and `s[n:]` for n within bounds.
abbrev pub take : Bytes → ℕ → Bytes
take s zero = []
take [] (suc n) = []
take (x ∷ s) (suc n) = x ∷ take s n

abbrev pub drop : Bytes → ℕ → Bytes
drop s zero = s
drop [] (suc n) = []
drop (x ∷ s) (suc n) = drop s n

-- matchPrefix of internal/report/data.go: its test of the length, and of the bytes cut off there.
unfoldable pub match_prefix : Bytes → Bytes → Bool
match_prefix s prefix = leb (length prefix) (length s) && beq (take s (length prefix)) prefix

unfoldable pub match_suffix : Bytes → Bytes → Bool
match_suffix s suffix =
    leb (length suffix) (length s) && beq (drop s (length s - length suffix)) suffix

-- `strings.Index`: where the first copy of the text begins.
unfoldable pub index : Bytes → Bytes → Option ℕ
unfolding match_prefix
index [] text = if match_prefix [] text then some 0 else none
index (x ∷ s) text =
    let rest = index s text in
    if match_prefix (x ∷ s) text
    then some 0
    else (elim rest [ none ↦ none | some i ↦ some (suc i) ])

pub missing : Error
missing =
    codes "could not find \""
    ++ marker_begin
    ++ codes "\" / \""
    ++ marker_end
    ++ codes "\" markers in target file"

-- `original[:begin] + replacement + original[end:]`, where `end < begin` is refused.
unfoldable pub splice : Bytes → Bytes → ℕ → ℕ → Result Bytes
splice original replacement begin end =
    if ltb end begin
    then err missing
    else ok (take original begin ++ (replacement ++ drop original (end + length marker_end)))

unfoldable pub replace_between_markers : Bytes → Bytes → Result Bytes
unfolding index splice
replace_between_markers original replacement = elim (index original marker_begin) [
  | none ↦ err missing
  | some begin ↦ elim (index original marker_end) [
    | none ↦ err missing
    | some end ↦ splice original replacement begin end
  ]
]

take-drop : (s : Bytes) (n : ℕ) → s ≡ take s n ++ drop s n
take-drop s zero = refl
take-drop [] (suc n) = refl
take-drop (x ∷ s) (suc n) = ap (x ∷◌) (take-drop s n)

-- A text starts with another.
abbrev pub StartsWith : Bytes → Bytes → Type 0
StartsWith s text = (rest : Bytes) × (s ≡ text ++ rest)

match_prefix-StartsWith : (s prefix : Bytes) → match_prefix s prefix ≡ true → StartsWith s prefix
unfolding match_prefix
match_prefix-StartsWith s prefix h =
    (drop s (length prefix), take-drop s (length prefix) ∙ ap (◌++ drop s (length prefix)) same)
  where
    same : take s (length prefix) ≡ prefix
    same = beq_eq (take s (length prefix)) prefix (ground arith)

index-StartsWith : (s text : Bytes) (i : ℕ) → index s text ≡ some i → StartsWith (drop s i) text
unfolding index
index-StartsWith [] text i h = by_match (match_prefix [] text) refl h
  where
    by_match :
        (b : Bool)
        → match_prefix [] text ≡ b
        → (if b then some 0 else none) ≡ some i
        → StartsWith (drop [] i) text
    by_match true k e =
        subst (λ n. StartsWith (drop [] n) text) (some_inj 0 i e)
          (match_prefix-StartsWith [] text k)
    by_match false k e = cc
index-StartsWith (x ∷ s) text i h =
    by_match (match_prefix (x ∷ s) text) (index s text) refl (index-StartsWith s text) h
  where
    by_match :
        (b : Bool) (o : Option ℕ)
        → match_prefix (x ∷ s) text ≡ b
        → ((n : ℕ) → o ≡ some n → StartsWith (drop s n) text)
        → (if b then some 0 else (elim o [ none ↦ none | some n ↦ some (suc n) ])) ≡ some i
        → StartsWith (drop (x ∷ s) i) text
    by_match true o k r e =
        subst (λ n. StartsWith (drop (x ∷ s) n) text) (some_inj 0 i e)
          (match_prefix-StartsWith (x ∷ s) text k)
    by_match false none k r e = cc
    by_match false (some n) k r e =
        subst (λ m. StartsWith (drop (x ∷ s) m) text) (some_inj (suc n) i e) (r n refl)

drop-nil : (n : ℕ) → drop [] n ≡ []
drop-nil zero = refl
drop-nil (suc n) = refl

drop-drop : (s : Bytes) (a b : ℕ) → drop (drop s a) b ≡ drop s (a + b)
drop-drop s zero b = ap (drop s) (omega arith)
drop-drop [] (suc a) zero = sym (drop-nil (suc a + 0))
drop-drop [] (suc a) (suc b) = sym (drop-nil (suc a + suc b))
drop-drop (x ∷ s) (suc a) b =
    drop-drop s a b ∙ ap (drop (x ∷ s)) (let e : suc (a + b) ≡ suc a + b = omega arith in e)

pub drop-append : (text rest : Bytes) → drop (text ++ rest) (length text) ≡ rest
drop-append [] rest = refl
drop-append (x ∷ text) rest = drop-append text rest

-- The original is some text, a begin marker, some text, an end marker and some text; the result has
-- the replacement from the one marker to the other, both included, and is otherwise the same.
pub record Replaced (original replacement result : Bytes) : Type 0 where
  pub before : Bytes
  pub body : Bytes
  pub inner : Bytes
  pub after : Bytes
  pub whole : original ≡ before ++ body
  pub begins : StartsWith body marker_begin
  pub ends : body ≡ inner ++ (marker_end ++ after)
  pub result_whole : result ≡ before ++ (replacement ++ after)

splice-Replaced :
    (original replacement result : Bytes) (begin end : ℕ)
    → StartsWith (drop original begin) marker_begin
    → StartsWith (drop original end) marker_end
    → splice original replacement begin end ≡ ok result
    → Replaced original replacement result
unfolding splice
splice-Replaced original replacement result begin end b e h = by_order (ltb end begin) refl h
  where
    after_end : drop original (end + length marker_end) ≡ e.0
    after_end =
        sym (drop-drop original end (length marker_end))
        ∙ ap (λ s. drop s (length marker_end)) e.1
        ∙ drop-append marker_end e.0

    ok_inj : {a c : Bytes} → ok a ≡ ok c → a ≡ c
    ok_inj g = cc

    by_order :
        (o : Bool)
        → ltb end begin ≡ o
        → (if o
            then err missing
            else ok
                (take original begin ++ (replacement ++ drop original (end + length marker_end))))
          ≡ ok result
        → Replaced original replacement result
    by_order true k f = cc
    by_order false k f = record {
      before = take original begin;
      body = drop original begin;
      inner = take (drop original begin) (end - begin);
      after = e.0;
      whole = take-drop original begin;
      begins = b;
      ends =
          take-drop (drop original begin) (end - begin)
          ∙ ap (take (drop original begin) (end - begin) ++◌)
              (drop-drop original begin (end - begin) ∙ ap (drop original) (ground arith) ∙ e.1);
      result_whole = sym (ok_inj f) ∙ ap (λ s. take original begin ++ (replacement ++ s)) after_end;
    }

-- What ReplaceBetweenMarkers gives without error is the original with the replacement in the place of
-- all that stands between a begin marker and an end marker, the markers included.
pub replace_between_markers-Replaced :
    (original replacement result : Bytes)
    → replace_between_markers original replacement ≡ ok result
    → Replaced original replacement result
unfolding replace_between_markers
replace_between_markers-Replaced original replacement result h =
    by_begin (index original marker_begin) (index original marker_end) refl refl h
  where
    by_begin :
        (b e : Option ℕ)
        → index original marker_begin ≡ b
        → index original marker_end ≡ e
        → elim b as (λ o. Result Bytes) [
          | none ↦ err missing
          | some begin ↦ elim e [
            | none ↦ err missing
            | some end ↦ splice original replacement begin end
          ]
        ]
          ≡ ok result
        → Replaced original replacement result
    by_begin none e k l f = cc
    by_begin (some begin) none k l f = cc
    by_begin (some begin) (some end) k l f =
        splice-Replaced original replacement result begin end
          (index-StartsWith original marker_begin begin k)
          (index-StartsWith original marker_end end l) f

-- ===== src/Nvtx/Labels.antt =====
-- Labels can be read back, and the checks on a label's length never fail.
use fused_index_top_k.Base.{
  ℕ, ◌+◌, ◌≤◌, ◌≡◌, refl, ap, ◌∙◌, Bool, true, false, ◌&&◌, List, [], ◌∷◌, ◌++◌, eqb, leb,
  if◌then◌else◌, nat_eq, length, contains, contains-append, ok, >>=-eq-ok, arith,
}
use fused_index_top_k.Graph.Validate.{codes, all_id_chars, is_id_char}
use fused_index_top_k.Nvtx.{
  colon, safe_component, validate_label_component, join, utf8_length, checked_label, stage_label,
  starts_with, ncu_push_pop_filter,
}

-- The reference reader: the parts of a text between the separators `::`.
abbrev cons_head : ℕ → List (List ℕ) → List (List ℕ)
cons_head c [] = (c ∷ []) ∷ []
cons_head c (part ∷ parts) = (c ∷ part) ∷ parts

unfoldable pub split : List ℕ → List (List ℕ)
split [] = [] ∷ []
split (c ∷ []) = (c ∷ []) ∷ []
split (c ∷ d ∷ text) =
    let skipped = split text in
    let kept = split (d ∷ text) in
    if eqb c colon && eqb d colon then [] ∷ skipped else cons_head c kept

abbrev pub AllPlain : List (List ℕ) → Type 0
AllPlain [] = Unit
AllPlain (x ∷ xs) = (contains x colon ≡ false) × AllPlain xs

split_plain : (x : List ℕ) → contains x colon ≡ false → split x ≡ x ∷ []
unfolding split
split_plain [] h = refl
split_plain (c ∷ []) h = refl
split_plain (c ∷ d ∷ x) h = ground (arith, split_plain (d ∷ x))

split_front :
    (x rest : List ℕ)
    → contains x colon ≡ false
    → split (x ++ colon ∷ colon ∷ rest) ≡ x ∷ split rest
unfolding split
split_front [] rest h = refl
split_front (c ∷ []) rest h = ground arith
split_front (c ∷ d ∷ x) rest h = ground (arith, split_front (d ∷ x) rest)

split-join : (x : List ℕ) (xs : List (List ℕ)) → AllPlain (x ∷ xs) → split (join (x ∷ xs)) ≡ x ∷ xs
unfolding join
split-join x [] h = split_plain x h.0
split-join x (y ∷ xs) h = split_front x (join (y ∷ xs)) h.0 ∙ ap (λ r. x ∷ r) (split-join y xs h.1)

-- What a checked component consists of.
all_id_chars-contains :
    (cs : List ℕ) (c : ℕ) → all_id_chars cs ≡ true → is_id_char c ≡ false → contains cs c ≡ false
all_id_chars-contains [] c h n = refl
all_id_chars-contains (d ∷ cs) c h n = ground (arith, all_id_chars-contains cs c)

safe_component-contains :
    (x : List ℕ) (c : ℕ) → safe_component x ≡ true → is_id_char c ≡ false → contains x c ≡ false
unfolding safe_component
safe_component-contains [] c h n = refl
safe_component-contains (d ∷ cs) c h n = ground (arith, all_id_chars-contains cs c)

all_id_chars-utf8_length : (cs : List ℕ) → all_id_chars cs ≡ true → utf8_length cs ≡ length cs
unfolding utf8_length
all_id_chars-utf8_length [] h = refl
all_id_chars-utf8_length (c ∷ cs) h = ground (arith, all_id_chars-utf8_length cs)

safe_component-utf8_length : (x : List ℕ) → safe_component x ≡ true → utf8_length x ≤ 64
unfolding safe_component utf8_length
safe_component-utf8_length [] h = omega arith
safe_component-utf8_length (c ∷ cs) h = ground (arith, all_id_chars-utf8_length cs)

utf8_length-append : (xs ys : List ℕ) → utf8_length (xs ++ ys) ≡ utf8_length xs + utf8_length ys
unfolding utf8_length
utf8_length-append [] ys = omega arith
utf8_length-append (x ∷ xs) ys = omega (arith, utf8_length-append xs ys)

validate_label_component-eq-ok :
    (v x : List ℕ) → validate_label_component v ≡ ok x → (x ≡ v) × (safe_component v ≡ true)
unfolding validate_label_component
validate_label_component-eq-ok v x h = ground arith

validate_label_component-safe :
    (v : List ℕ) → safe_component v ≡ true → validate_label_component v ≡ ok v
unfolding validate_label_component
validate_label_component-safe v h = ground arith

checked_label-eq-ok :
    (xs : List (List ℕ)) (label : List ℕ)
    → checked_label xs ≡ ok label
    → label ≡ join (codes "ITK" ∷ xs)
unfolding checked_label
checked_label-eq-ok xs label h = ground arith

checked_label-short :
    (xs : List (List ℕ))
    → utf8_length (join (codes "ITK" ∷ xs)) ≤ 240
    → checked_label xs ≡ ok (join (codes "ITK" ∷ xs))
unfolding checked_label
checked_label-short xs h = ground arith

-- What a stage label that is returned consists of.
stage_label-eq-ok :
    (v c s label : List ℕ)
    → stage_label v c s ≡ ok label
    → (safe_component v ≡ true)
      × (safe_component c ≡ true)
      × (safe_component s ≡ true)
      × (label ≡ join (codes "ITK" ∷ codes "STAGE" ∷ v ∷ c ∷ s ∷ []))
unfolding stage_label
stage_label-eq-ok v c s label h =
    let v1 = >>=-eq-ok (validate_label_component v) _ h in
    let c1 = >>=-eq-ok (validate_label_component c) _ v1.2 in
    let s1 = >>=-eq-ok (validate_label_component s) _ c1.2 in
    let v2 = validate_label_component-eq-ok v v1.0 v1.1 in
    let c2 = validate_label_component-eq-ok c c1.0 c1.1 in
    let s2 = validate_label_component-eq-ok s s1.0 s1.1 in
    let made = checked_label-eq-ok (codes "STAGE" ∷ v1.0 ∷ c1.0 ∷ s1.0 ∷ []) label s1.2 in
    (v2.1, c2.1, s2.1, grind (arith, made, v2.0, c2.0, s2.0))

-- A stage label can be read back: two stages, cases or variants never share one.
pub split-stage_label :
    (v c s label : List ℕ)
    → stage_label v c s ≡ ok label
    → split label ≡ codes "ITK" ∷ codes "STAGE" ∷ v ∷ c ∷ s ∷ []
split-stage_label v c s label h =
    let parts = stage_label-eq-ok v c s label h in
    ap split parts.3
    ∙ split-join (codes "ITK") (codes "STAGE" ∷ v ∷ c ∷ s ∷ []) (
      refl,
      (
        refl,
        (
          safe_component-contains v colon parts.0 refl,
          (
            safe_component-contains c colon parts.1 refl,
            (safe_component-contains s colon parts.2 refl, tt),
          ),
        ),
      ),
    )

join_front :
    (x y : List ℕ) (rest : List (List ℕ))
    → utf8_length (join (x ∷ y ∷ rest)) ≡ utf8_length x + 2 + utf8_length (join (y ∷ rest))
unfolding join utf8_length
join_front x y rest = ground (arith, utf8_length-append x (colon ∷ colon ∷ join (y ∷ rest)))

abbrev is_upper : ℕ → Bool
is_upper c = leb b'A' c && leb c b'Z'

stage_text-prefix :
    (text : List (List ℕ))
    → starts_with (join (codes "ITK" ∷ codes "STAGE" ∷ text)) (codes "ITK::") ≡ true
unfolding join
stage_text-prefix text = refl

module _ (v c s : List ℕ) (hv : safe_component v ≡ true) (hc : safe_component c ≡ true)
    (hs : safe_component s ≡ true) where
  abbrev parts : List (List ℕ)
  parts = codes "STAGE" ∷ v ∷ c ∷ s ∷ []

  stage_text : utf8_length (join (codes "ITK" ∷ parts)) ≤ 240
  unfolding join utf8_length
  stage_text = omega (
    arith,
    join_front v c (s ∷ []),
    join_front c s [],
    safe_component-utf8_length v hv,
    safe_component-utf8_length c hc,
    safe_component-utf8_length s hs,
  )

  stage_text-contains :
      (d : ℕ)
      → is_id_char d ≡ false
      → is_upper d ≡ false
      → eqb d colon ≡ false
      → contains (join (codes "ITK" ∷ parts)) d ≡ false
  unfolding join
  stage_text-contains d h u n = ground (
    arith,
    safe_component-contains v d hv h,
    safe_component-contains c d hc h,
    safe_component-contains s d hs h,
    contains-append v (colon ∷ colon ∷ c ++ colon ∷ colon ∷ s) d,
    contains-append c (colon ∷ colon ∷ s) d,
  )

  -- Three safe components always make a label within the limit, which the filter accepts.
  pub stage_label_total :
      (label : List ℕ) × (stage_label v c s ≡ ok label)
      × (ncu_push_pop_filter label ≡ ok (label ++ b'/' ∷ []))
  unfolding stage_label ncu_push_pop_filter
  stage_label_total =
      let label = join (codes "ITK" ∷ parts) in
      (
        label,
        grind (
          arith,
          validate_label_component-safe v hv,
          validate_label_component-safe c hc,
          validate_label_component-safe s hs,
          checked_label-short parts stage_text,
        ),
        grind (
          arith,
          stage_text-contains b'/' refl refl refl,
          stage_text-contains b'@' refl refl refl,
          stage_text-prefix (v ∷ c ∷ s ∷ []),
        ),
      )

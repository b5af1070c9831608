-- ===== src/Config/Names.antt =====
-- split of internal/config/config.go: the names of queues in QUEUES.
use forge_queue.Prelude.{
  ◌≡◌, refl, ◌==◌, String, str_eq, Bool, true, false, not, ◌&&◌, List, [], ◌∷◌, All, arith, ◌∙◌, ap,
  Bool-cases, inl, inr, false≢true,
}
use Prim.Native.Char.{Char, char, code}
use Prim.Native.String.{[] as empty, ◌∷◌ as ◌::◌}
use forge_queue.Config.{
  is_space, trim_left, trim_right, trim_space, to_first, split_commas, trimmed_parts,
  or_default_name, split,
}

abbrev pub has_no_comma : String → Bool
has_no_comma empty = true
has_no_comma (c :: s) = not (code c == 44) && has_no_comma s

-- A name as split gives it: with a character, without a comma, and without white space around it.
pub record IsName (s : String) : Type 0 where
  pub plain : has_no_comma s ≡ true
  pub trimmed : trim_space s ≡ s
  pub filled : str_eq s "" ≡ false

-- strings.Join(names, ","), for one name or more.
abbrev comma_then : String → String → String
comma_then empty rest = char 44 tt :: rest
comma_then (c :: s) rest = c :: comma_then s rest

abbrev pub join : String → List String → String
join name [] = name
join name (next ∷ names) = comma_then name (join next names)

split_last : (s : String) → has_no_comma s ≡ true → split_commas s ≡ s ∷ []
unfolding split_commas
split_last empty h = refl
split_last (c :: s) h = ground (arith, split_last s (ground arith))

split_next :
    (s rest : String)
    → has_no_comma s ≡ true
    → split_commas (comma_then s rest) ≡ s ∷ split_commas rest
unfolding split_commas
split_next empty rest h = refl
split_next (c :: s) rest h = ground (arith, split_next s rest (ground arith))

split_commas-join :
    (name : String) (names : List String)
    → IsName name
    → All IsName names
    → split_commas (join name names) ≡ name ∷ names
split_commas-join name [] n all = split_last name n.plain
split_commas-join name (next ∷ names) n (m, all) =
    split_next name (join next names) n.plain
    ∙ ap (λ parts. name ∷ parts) (split_commas-join next names m all)

trimmed_parts-names : (names : List String) → All IsName names → trimmed_parts names ≡ names
unfolding trimmed_parts
trimmed_parts-names [] all = refl
trimmed_parts-names (name ∷ names) (n, all) =
    rw (n.trimmed, n.filled, trimmed_parts-names names all) refl

-- One or more names of queues that are not empty, have no comma and no white space around them
-- come back from split as they were, in order, when QUEUES holds them joined by commas.
pub split-join :
    (name : String) (names : List String)
    → IsName name
    → All IsName names
    → split (join name names) ≡ name ∷ names
unfolding split
split-join name names n all =
    ap (λ parts. or_default_name (trimmed_parts parts)) (split_commas-join name names n all)
    ∙ ap or_default_name (trimmed_parts-names (name ∷ names) (n, all))

-- No white space at the start.
abbrev is_flush : String → Bool
is_flush empty = true
is_flush (c :: s) = not (is_space c)

trim_left-is_flush : (s : String) → is_flush (trim_left s) ≡ true
unfolding trim_left
trim_left-is_flush empty = refl
trim_left-is_flush (c :: s) = elim (Bool-cases (is_space c)) [
  | inl e ↦ rw e (trim_left-is_flush s)
  | inr e ↦ rw e (rw e refl)
]

trim_left_flush : (s : String) → is_flush s ≡ true → trim_left s ≡ s
unfolding trim_left
trim_left_flush empty h = refl
trim_left_flush (c :: s) h = elim (Bool-cases (is_space c)) [
  | inl e ↦ absurd (false≢true (rw e at h))
  | inr e ↦ rw e refl
]

trim_right_flush : (s : String) → is_flush s ≡ true → is_flush (trim_right s) ≡ true
unfolding trim_right
trim_right_flush empty h = refl
trim_right_flush (c :: s) h = elim (Bool-cases (is_space c)) [
  | inl e ↦ absurd (false≢true (rw e at h))
  | inr e ↦ rw e (rw e refl)
]

trim_right-trim_right : (s : String) → trim_right (trim_right s) ≡ trim_right s
unfolding trim_right
trim_right-trim_right empty = refl
trim_right-trim_right (c :: s) = elim (Bool-cases (is_space c && str_eq (trim_right s) "")) [
  | inl e ↦ rw e refl
  | inr e ↦ rw (e, trim_right-trim_right s) (rw e refl)
]

trim_space-trim_space : (s : String) → trim_space (trim_space s) ≡ trim_space s
unfolding trim_space
trim_space-trim_space s =
    ap trim_right (
      trim_left_flush (trim_right (trim_left s))
        (trim_right_flush (trim_left s) (trim_left-is_flush s)))
    ∙ trim_right-trim_right (trim_left s)

trim_left_plain : (s : String) → has_no_comma s ≡ true → has_no_comma (trim_left s) ≡ true
unfolding trim_left
trim_left_plain empty h = refl
trim_left_plain (c :: s) h = elim (Bool-cases (is_space c)) [
  | inl e ↦ rw e (trim_left_plain s (ground arith))
  | inr e ↦ rw e h
]

trim_right_plain : (s : String) → has_no_comma s ≡ true → has_no_comma (trim_right s) ≡ true
unfolding trim_right
trim_right_plain empty h = refl
trim_right_plain (c :: s) h = elim (Bool-cases (is_space c && str_eq (trim_right s) "")) [
  | inl e ↦ rw e refl
  | inr e ↦ rw e (ground (arith, trim_right_plain s (ground arith)))
]

abbrev IsPlain : String → Type 0
IsPlain s = has_no_comma s ≡ true

to_first-IsPlain :
    (c : Char) (parts : List String)
    → (code c == 44) ≡ false
    → All IsPlain parts
    → All IsPlain (to_first c parts)
to_first-IsPlain c [] h all = (rw h refl, tt)
to_first-IsPlain c (part ∷ parts) h (p, all) = (rw h p, all)

split_commas-IsPlain : (s : String) → All IsPlain (split_commas s)
unfolding split_commas
split_commas-IsPlain empty = (refl, tt)
split_commas-IsPlain (c :: s) = elim (Bool-cases (code c == 44)) [
  | inl e ↦ rw e (refl, split_commas-IsPlain s)
  | inr e ↦ rw e (to_first-IsPlain c (split_commas s) e (split_commas-IsPlain s))
]

trimmed_parts-IsName : (parts : List String) → All IsPlain parts → All IsName (trimmed_parts parts)
unfolding trimmed_parts
trimmed_parts-IsName [] all = tt
trimmed_parts-IsName (part ∷ parts) (p, all) = elim (Bool-cases (str_eq (trim_space part) "")) [
  | inl e ↦ rw e (trimmed_parts-IsName parts all)
  | inr e ↦ rw e (trim_space-IsName part p e, trimmed_parts-IsName parts all)
]
  where
    trim_space-IsName :
        (part : String)
        → has_no_comma part ≡ true
        → str_eq (trim_space part) "" ≡ false
        → IsName (trim_space part)
    trim_space-IsName part p e = record {
      plain = trim_right_plain (trim_left part) (trim_left_plain part p);
      trimmed = trim_space-trim_space part;
      filled = e;
    }

default-IsName : (names : List String) → All IsName names → All IsName (or_default_name names)
unfolding trim_space
default-IsName [] all = (record { plain = refl; trimmed = refl; filled = refl }, tt)
default-IsName (name ∷ names) all = all

-- Whatever QUEUES holds, each name that split gives is not empty, has no comma, and no white space
-- around it.
pub split-IsName : (value : String) → All IsName (split value)
unfolding split
split-IsName value =
    default-IsName (trimmed_parts (split_commas value))
      (trimmed_parts-IsName (split_commas value) (split_commas-IsPlain value))

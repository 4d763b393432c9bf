-- ===== src/Client/Words.antt =====
-- `SplitWords` and `JoinWords` of src/client/client.cpp.
use mathlib.Core.List.{append_assoc}
use crown_kv.Common.{
  ℕ, ◌<◌, ◌≡◌, ◌∙◌, ap, refl, arith, if◌then◌else◌, List, [], ◌∷◌, ◌++◌, Text, text_eq, text_beq,
  ◌==◌, drop, length, All, All-drop, parts, join, IsPart, parts-join,
}
use crown_kv.Address.{is_space}

-- `stream >> word`: white space stands before, between and after the words.
unfoldable pub split_words : Text → List Text
unfolding parts
split_words line = parts is_space line

-- The loop over the words.
unfoldable pub join_from : Text → List Text → Text
join_from joined [] = joined
join_from joined (word ∷ words) =
    join_from ((if joined == [] then [] else joined ++ b' ' ∷ []) ++ word) words

unfoldable pub join_words : List Text → ℕ → Text
unfolding join_from
join_words words begin = join_from [] (drop begin words)

-- Words are not empty and hold no white space.
abbrev pub IsWord : Text → Type 0
IsWord = IsPart is_space

join-glue :
    (joined : Text) (c : ℕ) (word : Text) (words : List Text)
    → join (((joined ++ c ∷ []) ++ word) ∷ words) c ≡ joined ++ c ∷ join (word ∷ words) c
join-glue joined c word [] = append_assoc joined (c ∷ []) word
join-glue joined c word (next ∷ words) =
    append_assoc (joined ++ c ∷ []) word _ ∙ append_assoc joined (c ∷ []) _

join_from-join :
    (joined : Text) (words : List Text)
    → 0 < length joined
    → join_from joined words ≡ join (joined ∷ words) b' '
unfolding join_from text_beq
join_from-join [] words h = absurd (omega arith)
join_from-join (x ∷ joined) [] h = refl
join_from-join (x ∷ joined) (word ∷ words) h =
    join_from-join _ words (omega arith) ∙ join-glue (x ∷ joined) b' ' word words

join_words-join : (words : List Text) → All IsWord words → join_from [] words ≡ join words b' '
unfolding join_from text_beq
join_words-join [] h = refl
join_words-join (word ∷ words) (h, hs) = join_from-join word words h.0

-- Words that are joined by blanks are split into the same words again.
pub split_words-join_words :
    (words : List Text) (begin : ℕ)
    → All IsWord words
    → split_words (join_words words begin) ≡ drop begin words
unfolding split_words join_words join_from
split_words-join_words words begin h =
    let rest = All-drop IsWord words begin h in
    ap split_words (join_words-join (drop begin words) rest)
    ∙ parts-join is_space b' ' (unfold is_space in refl) (drop begin words) rest

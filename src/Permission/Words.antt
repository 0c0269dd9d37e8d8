-- ===== src/Permission/Words.antt =====
-- The words of a line of the state file, in permission/src/permission_impl.c.
use hwrun_os_linux.Prelude.{
  ℕ, ◌+◌, ◌<◌, ◌≡◌, ◌≢◌, refl, ◌∙◌, ap, Bool, true, false, ◌||◌, [], ◌∷◌, ◌++◌, append-nil, some,
  Bytes, length, is_empty, if◌then◌else◌, leb, ◌==◌, arith,
}
use hwrun_os_linux.Prelude.Lines.{
  trim_back, trim_back-newline, trim_back_solid, ends_solid, ends_solid-append, newline, OneLine,
}
use hwrun_os_linux.Permission.{token_ok, free_text_ok, no_reserved, no_newline}

-- A blank or a tab.
abbrev pub is_gap : ℕ → Bool
is_gap c = c == 32 || c == 9

unfoldable pub skip_gaps : Bytes → Bytes
skip_gaps [] = []
skip_gaps (c ∷ s) = if is_gap c then skip_gaps s else c ∷ s

unfoldable pub trim_ws : Bytes → Bytes
unfolding skip_gaps trim_back
trim_ws s = trim_back (skip_gaps s)

-- The bytes before the next gap, and the rest.
unfoldable pub word : Bytes → Bytes × Bytes
word [] = ([], [])
word (c ∷ s) = let rest = word s in if is_gap c then ([], c ∷ s) else (c ∷ rest.0, rest.1)

-- A blank and a text, or nothing for an empty one.
abbrev pub tail : Bytes → Bytes
tail [] = []
tail (c ∷ s) = 32 ∷ c ∷ s

-- 0, 1 and -1
pub data Taken : Type 0 where
  no_token too_long : Taken
  token : Bytes → Taken

-- What take_tok makes of a text, and where it leaves off.
unfoldable pub take_tok : ℕ → Bytes → Taken × Bytes
unfolding skip_gaps word
take_tok cap s =
    (let from = skip_gaps s in
      let found = word from in
      if is_empty from
      then (no_token, from)
      else if leb cap (length found.0)
      then (too_long, found.1)
      else (token found.0, found.1))

word-append :
    (t rest : Bytes) → no_reserved t ≡ true → word rest ≡ ([], rest) → word (t ++ rest) ≡ (t, rest)
unfolding word no_reserved
word-append [] rest h e = e
word-append (c ∷ t) rest h e = ground (arith, word-append t rest)

take_tok-word :
    (cap : ℕ) (s t rest : Bytes)
    → skip_gaps s ≡ s
    → is_empty s ≡ false
    → word s ≡ (t, rest)
    → leb cap (length t) ≡ false
    → take_tok cap s ≡ (token t, rest)
unfolding take_tok
take_tok-word cap s t rest front there found short = rw (front, there, found, short) refl

-- A word behind a blank, up to a place where a word ends.
pub take_tok-token :
    (cap : ℕ) (t rest : Bytes)
    → token_ok (some t) cap ≡ true
    → word rest ≡ ([], rest)
    → take_tok cap (32 ∷ (t ++ rest)) ≡ (token t, rest)
unfolding take_tok token_ok no_reserved skip_gaps
take_tok-token cap [] rest h e = absurd (ground arith)
take_tok-token cap (c ∷ t) rest h e =
    let solid : is_gap c ≡ false = ground arith in
    let short : leb cap (length (c ∷ t)) ≡ false = ground arith in
    let plain : no_reserved (c ∷ t) ≡ true = ground arith in
    take_tok-word cap (c ∷ (t ++ rest)) (c ∷ t) rest (rw solid refl) refl
      (word-append (c ∷ t) rest plain e) short

-- A text without a gap in front and a blank at its end.
abbrev pub IsTrimmed : Bytes → Type 0
IsTrimmed [] = Unit
IsTrimmed (c ∷ s) = (is_gap c ≡ false) × (ends_solid (c ∷ s) ≡ true)

pub trim_ws-trimmed : (d : Bytes) → IsTrimmed d → trim_ws (tail d) ≡ d
unfolding trim_ws skip_gaps
trim_ws-trimmed [] h = refl
trim_ws-trimmed (c ∷ s) h = rw (h.0) (trim_back_solid (c ∷ s) h.1)

-- A line that is trimmed already, with its newline.
pub trim_ws-line :
    (c : ℕ) (s : Bytes)
    → is_gap c ≡ false
    → ends_solid (c ∷ s) ≡ true
    → trim_ws (c ∷ (s ++ newline ∷ [])) ≡ c ∷ s
unfolding trim_ws skip_gaps
trim_ws-line c s solid ends = rw solid (trim_back-newline (c ∷ s) ∙ trim_back_solid (c ∷ s) ends)

pub word-tail : (d : Bytes) → word (tail d) ≡ ([], tail d)
unfolding word
word-tail [] = refl
word-tail (c ∷ s) = refl

token-solid : (t : Bytes) → no_reserved t ≡ true → t ≢ [] → ends_solid t ≡ true
unfolding no_reserved ends_solid
token-solid [] h ne = absurd (ne refl)
token-solid (c ∷ []) h ne = ground arith
token-solid (c ∷ d ∷ t) h ne = token-solid (d ∷ t) (ground arith) (ground arith)

-- A line ends in a solid byte where it ends in a token and a trimmed text.
pub tail-solid :
    (cap : ℕ) (a t d : Bytes)
    → token_ok (some t) cap ≡ true
    → IsTrimmed d
    → ends_solid (a ++ (t ++ tail d)) ≡ true
unfolding token_ok
tail-solid cap a [] d h trimmed = absurd (ground arith)
tail-solid cap a (c ∷ t) [] h trimmed =
    ends_solid-append a (c ∷ (t ++ [])) (ground arith)
    ∙ ap (λ x. ends_solid (c ∷ x)) (append-nil t)
    ∙ token-solid (c ∷ t) (ground arith) (ground arith)
tail-solid cap a (c ∷ t) (b ∷ s) h trimmed =
    ends_solid-append a (c ∷ (t ++ 32 ∷ b ∷ s)) (ground arith)
    ∙ ends_solid-append (c ∷ t) (32 ∷ b ∷ s) (ground arith)
    ∙ ends_solid-append (32 ∷ []) (b ∷ s) (ground arith)
    ∙ trimmed.1

plain_OneLine : (t : Bytes) → no_reserved t ≡ true → OneLine t
unfolding no_reserved
plain_OneLine [] h = tt
plain_OneLine (c ∷ t) h = ground (arith, plain_OneLine t)

lines_OneLine : (s : Bytes) → no_newline s ≡ true → OneLine s
unfolding no_newline
lines_OneLine [] h = tt
lines_OneLine (c ∷ s) h = ground (arith, lines_OneLine s)

pub token_OneLine :
    (cap : ℕ) (t : Bytes) → token_ok (some t) cap ≡ true → OneLine t × (length t < cap)
unfolding token_ok
token_OneLine cap [] h = absurd (ground arith)
token_OneLine cap (c ∷ t) h = (plain_OneLine (c ∷ t) (ground arith), ground arith)

pub text_OneLine :
    (cap : ℕ) (s : Bytes)
    → free_text_ok s cap ≡ true
    → OneLine (tail s) × (length (tail s) < cap + 1)
unfolding free_text_ok
text_OneLine cap [] h = (tt, omega arith)
text_OneLine cap (c ∷ s) h = ((ground arith, lines_OneLine (c ∷ s) (ground arith)), ground arith)

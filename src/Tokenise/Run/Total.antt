-- ===== src/Tokenise/Run/Total.antt =====
-- Every round of `tokeniser_run` ends inside the buffer.
use polyfill_glibc.Base.{
  ℕ, ◌+◌, ◌≤◌, Bool, true, false, not, ◌&&◌, ◌||◌, Option, some, List, [], ◌∷◌, bit_or, ◌≡◌, refl,
  sym, ap, ◌∙◌, arith, ◌==◌, if◌then◌else◌, length,
}
use mathlib.Core.Bool.{false≢true}
use polyfill_glibc.Tokenise.Chars.{has_flag, cf_str_body, cf_pp_number, cf_e_p}
use polyfill_glibc.Tokenise.Scan.{
  tok_punct, tok_number, skip_while, is_newline, scan_literal, scan_number,
}
use polyfill_glibc.Tokenise.Run.{
  Round, ident, token, blank, line, eof, is_decimal, option_round, literal_round, flagged, dot,
  carriage_return, comment, slash,
}

-- What ends with the "\n\0" that `tokeniser_run` writes behind the text.
pub data Ending : List ℕ → Type 0 where
  last : Ending (b'\n' ∷ 0 ∷ [])
  more : {c : ℕ} {src : List ℕ} → Ending src → Ending (c ∷ src)

pub Ending-length : {cs : List ℕ} → Ending cs → 2 ≤ length cs
Ending-length last = omega arith
Ending-length (more e) = omega (arith, Ending-length e)

-- `rest` is what is left of `src`, or of its end.
pub record Within (src rest : List ℕ) : Type 0 where
  pub ending : Ending rest
  pub shorter : length rest ≤ length src

Within-more : {c : ℕ} {src rest : List ℕ} → Within src rest → Within (c ∷ src) rest
Within-more w = record { ending = w.ending; shorter = omega (arith, w.shorter) }

pub all_left : {src : List ℕ} → Ending src → Within src src
all_left e = record { ending = e; shorter = omega arith }

pub record Skips (src : List ℕ) (o : Option (List ℕ)) : Type 0 where
  pub rest : List ℕ
  pub run : o ≡ some rest
  pub within : Within src rest

pub by_test {ℓ κ} :
    {A : Type ℓ} (P : A → Type κ) {x y : A} (b : Bool)
    → (b ≡ true → P x)
    → (b ≡ false → P y)
    → P (if b then x else y)
by_test P true p q = p refl
by_test P false p q = q refl

on_more : {c : ℕ} {src : List ℕ} {o : Option (List ℕ)} → Skips src o → Skips (c ∷ src) o
on_more s = record { rest = s.rest; run = s.run; within = Within-more s.within }

stay : {src : List ℕ} → Ending src → Skips src (some src)
stay {src} e = record { rest = src; run = refl; within = all_left e }

pub skip_while-Skips :
    (test : ℕ → Bool)
    → test b'\n' ≡ false
    → {src : List ℕ} → Ending src
    → Skips src (skip_while test src)
unfolding skip_while
skip_while-Skips test stops last =
    by_test (Skips (b'\n' ∷ 0 ∷ [])) (test b'\n') (λ t. absurd (false≢true (sym stops ∙ t)))
      (λ _. stay last)
skip_while-Skips test stops (more {c} {src} e) =
    let ih = on_more (skip_while-Skips test stops e) in
    by_test (Skips (c ∷ src)) (test c) (λ _. ih) (λ _. stay (more e))

pub scan_number-Skips :
    (before : ℕ) {src : List ℕ} → Ending src → Skips src (scan_number before src)
unfolding scan_number has_flag
scan_number-Skips before last = stay last
scan_number-Skips before (more {c} {src} e) =
    let ih = on_more (scan_number-Skips c e) in
    by_test (Skips (c ∷ src)) (has_flag cf_pp_number c) (λ _. ih)
      (λ _.
        by_test (Skips (c ∷ src)) (((c == b'+') || (c == b'-')) && has_flag cf_e_p before) (λ _. ih)
          (λ _. stay (more e)))

-- A literal ends, and what is left of the buffer is behind it.
pub record Closes (src : List ℕ) (o : Option (ℕ × List ℕ)) : Type 0 where
  pub type : ℕ
  pub rest : List ℕ
  pub run : o ≡ some (type, rest)
  pub within : Within src rest

Closes-more : {c : ℕ} {src : List ℕ} {o : Option (ℕ × List ℕ)} → Closes src o → Closes (c ∷ src) o
Closes-more s = record { type = s.type; rest = s.rest; run = s.run; within = Within-more s.within }

here : {src : List ℕ} (type : ℕ) → Ending src → Closes src (some (type, src))
here {src} type e = record { type = type; rest = src; run = refl; within = all_left e }

pub scan_literal-Closes :
    (escaped : Bool) (c0 type : ℕ)
    → (b'\n' == c0) ≡ false
    → {src : List ℕ} → Ending src
    → Closes src (scan_literal escaped c0 type src)
unfolding scan_literal has_flag
scan_literal-Closes true c0 type ne last = here type last
scan_literal-Closes false c0 type ne last =
    by_test (Closes (b'\n' ∷ 0 ∷ [])) (b'\n' == c0) (λ t. absurd (false≢true (sym ne ∙ t)))
      (λ _. here (bit_or type 1) last)
scan_literal-Closes true c0 type ne (more {c} {src} e) =
    let ih = Closes-more (scan_literal-Closes false c0 type ne e) in
    by_test (Closes (c ∷ src)) (is_newline c) (λ _. here type (more e)) (λ _. ih)
scan_literal-Closes false c0 type ne (more {c} {src} e) =
    let plain = has_flag cf_str_body c in
    let type' = if plain then type else bit_or type 1 in
    let ih = Closes-more (scan_literal-Closes (not plain && (c == b'\\')) c0 type' ne e) in
    by_test (Closes (c ∷ src)) plain (λ _. ih)
      (λ _.
        by_test (Closes (c ∷ src)) (c == c0) (λ _. Closes-more (here type e))
          (λ _. by_test (Closes (c ∷ src)) (is_newline c) (λ _. here type' (more e)) (λ _. ih)))

-- What is left behind the end of a line: the last one leaves a single zero.
pub data Rest : List ℕ → Type 0 where
  inside : {rest : List ℕ} → Ending rest → Rest rest
  closing : Rest (0 ∷ [])

pub record Line (src rest : List ℕ) : Type 0 where
  pub ending : Rest rest
  pub shorter : length rest ≤ length src

-- A round ends inside the buffer.
abbrev pub Fine : List ℕ → Round → Type 0
Fine src (ident rest) = Within src rest
Fine src (token type rest) = Within src rest
Fine src (blank rest) = Within src rest
Fine src (line rest) = Line src rest
Fine src eof = ⊥

pub record Ends (src : List ℕ) (o : Option Round) : Type 0 where
  pub result : Round
  pub run : o ≡ some result
  pub fine : Fine src result

pub by_option :
    {src : List ℕ} {o : Option (List ℕ)} (f : List ℕ → Round)
    → ((rest : List ℕ) → Within src rest → Fine src (f rest))
    → Skips src o
    → Ends src (option_round f o)
by_option f fine s = record {
  result = f s.rest;
  run = ap (option_round f) s.run;
  fine = fine s.rest s.within;
}

pub by_literal :
    {src : List ℕ} {o : Option (ℕ × List ℕ)} → Closes src o → Ends src (literal_round o)
by_literal s = record {
  result = token s.type s.rest;
  run = ap literal_round s.run;
  fine = s.within;
}

pub at_once : {src : List ℕ} (r : Round) → Fine src r → Ends src (some r)
at_once r f = record { result = r; run = refl; fine = f }

pub Line-Within : {src rest : List ℕ} → Within src rest → Line src rest
Line-Within w = record { ending = inside w.ending; shorter = w.shorter }

Line-more : {c : ℕ} {src rest : List ℕ} → Line src rest → Line (c ∷ src) rest
Line-more l = record { ending = l.ending; shorter = omega (arith, l.shorter) }

-- A round on the rest that ends a line or a comment is a round on what the rest came from.
Fine-more : (c : ℕ) (src : List ℕ) (r : Round) → Fine src r → Fine (c ∷ src) r
Fine-more c src (ident rest) f = Within-more f
Fine-more c src (token type rest) f = Within-more f
Fine-more c src (blank rest) f = Within-more f
Fine-more c src (line rest) f = Line-more f
Fine-more c src eof f = f

Ends-more : {c : ℕ} {src : List ℕ} {o : Option Round} → Ends src o → Ends (c ∷ src) o
Ends-more {c} {src} s = record {
  result = s.result;
  run = s.run;
  fine = Fine-more c src s.result s.fine;
}

pub end-Line : Line (b'\n' ∷ 0 ∷ []) (0 ∷ [])
end-Line = record { ending = closing; shorter = omega arith }

pub flagged-Ends :
    (c other flag : ℕ)
    → (b'\n' == other) ≡ false
    → {src : List ℕ} → Ending src
    → Ends src (flagged c other flag src)
unfolding flagged
flagged-Ends c other flag ne last =
    by_test (Ends (b'\n' ∷ 0 ∷ [])) (b'\n' == other) (λ t. absurd (false≢true (sym ne ∙ t)))
      (λ _. at_once (token (tok_punct c) (b'\n' ∷ 0 ∷ [])) (all_left last))
flagged-Ends c other flag ne (more {c = d} {src = src} e) =
    by_test (Ends (d ∷ src)) (d == other)
      (λ _. at_once (token (tok_punct c + flag) src) (Within-more (all_left e)))
      (λ _. at_once (token (tok_punct c) (d ∷ src)) (all_left (more e)))

pub dot-Ends : {src : List ℕ} → Ending src → Ends src (dot src)
unfolding dot
dot-Ends last = at_once (token (tok_punct b'.') (b'\n' ∷ 0 ∷ [])) (all_left last)
dot-Ends (more {c = d} {src = src} e) =
    by_test (Ends (d ∷ src)) (is_decimal d)
      (λ _. Ends-more (by_option (token tok_number) (λ _ w. w) (scan_number-Skips d e)))
      (λ _. at_once (token (tok_punct b'.') (d ∷ src)) (all_left (more e)))

pub carriage_return-Ends : {src : List ℕ} → Ending src → Ends src (carriage_return src)
unfolding carriage_return
carriage_return-Ends last = at_once (line (0 ∷ [])) end-Line
carriage_return-Ends (more {c = d} {src = src} e) =
    by_test (Ends (d ∷ src)) (d == b'\n')
      (λ _. at_once (line src) (Line-Within (Within-more (all_left e))))
      (λ _. at_once (line (d ∷ src)) (Line-Within (all_left (more e))))

comment-Ends : {src : List ℕ} → Ending src → Ends src (comment src)
unfolding comment
comment-Ends last = at_once (line (0 ∷ [])) end-Line
comment-Ends (more {c} {src} e) =
    let ih = Ends-more (comment-Ends e) in
    by_test (Ends (c ∷ src)) (c == b'\n')
      (λ _. at_once (line src) (Line-Within (Within-more (all_left e))))
      (λ _.
        by_test (Ends (c ∷ src)) (c == b'\r') (λ _. Ends-more (carriage_return-Ends e)) (λ _. ih))

pub slash-Ends : {src : List ℕ} → Ending src → Ends src (slash src)
unfolding slash
slash-Ends last = at_once (token (tok_punct b'/') (b'\n' ∷ 0 ∷ [])) (all_left last)
slash-Ends (more {c = d} {src = src} e) =
    by_test (Ends (d ∷ src)) (d == b'/') (λ _. Ends-more (comment-Ends e))
      (λ _. at_once (token (tok_punct b'/') (d ∷ src)) (all_left (more e)))

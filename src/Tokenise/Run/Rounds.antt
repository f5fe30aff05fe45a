-- ===== src/Tokenise/Run/Rounds.antt =====
-- Every round of `tokeniser_run` on a buffer that is not at its end ends, and takes something off it.
use polyfill_glibc.Base.{
  ℕ, ◌+◌, ◌≤◌, Bool, true, false, ◌||◌, List, [], ◌∷◌, some, ◌≡◌, refl, sym, ap, ◌∙◌, arith, leb,
  ◌==◌, if◌then◌else◌, length, bit_and, ◌*◌,
}
use mathlib.Core.Bool.{false≢true}
use polyfill_glibc.Tokenise.Chars.{has_flag, cf_ident_continue}
use polyfill_glibc.Tokenise.Scan.{
  punct_repeat, punct_eq, tok_punct, tok_number, tok_str_lit, tok_other_char, skip_while,
}
use polyfill_glibc.Tokenise.Run.Total.{
  Ending, Ending-length, Ends, all_left, by_test, by_option, by_literal, at_once, Line-Within,
  skip_while-Skips, scan_literal-Closes, scan_number-Skips, flagged-Ends, dot-Ends,
  carriage_return-Ends, slash-Ends,
}
use polyfill_glibc.Tokenise.Run.{
  ident, token, blank, line, eof, is_one_of, is_decimal, starts_ident, simple_puncts,
  repeated_puncts, equals_puncts, is_blank, is_continuation, round, option_round,
}

not_newline : (c : ℕ) (test : ℕ → Bool) → test b'\n' ≡ false → test c ≡ true → (b'\n' == c) ≡ false
not_newline c test stops passes = differ (b'\n' == c) refl
  where
    differ : (b : Bool) → (b'\n' == c) ≡ b → b ≡ false
    differ false e = refl
    differ true e =
        let same : b'\n' ≡ c = ground arith in
        absurd (false≢true (sym stops ∙ ap test same ∙ passes))

two_left : (n : ℕ) → leb n 1 ≡ true → 2 ≤ n → ⊥
two_left n q two = ground arith

-- The last cases of the `switch`.
other_round-Ends :
    (c : ℕ) {src : List ℕ}
    → Ending src
    → Ends src (
        if is_blank c
        then option_round blank (skip_while (λ (d : ℕ). d == c) src)
        else if c == 0
        then (if leb (length src) 1 then some eof else some (token tok_other_char src))
        else option_round (token tok_other_char) (skip_while is_continuation src))
other_round-Ends c {src} e =
    by_test (Ends src) (is_blank c)
      (λ q.
        by_option blank (λ _ w. w)
          (skip_while-Skips (λ (d : ℕ). d == c) (not_newline c is_blank refl q) e))
      (λ _.
        by_test (Ends src) (c == 0)
          (λ _.
            by_test (Ends src) (leb (length src) 1)
              (λ q. absurd (two_left (length src) q (Ending-length e)))
              (λ _. at_once (token tok_other_char src) (all_left e)))
          (λ _.
            by_option (token tok_other_char) (λ _ w. w) (skip_while-Skips is_continuation refl e)))

pub round-Ends : (c : ℕ) {src : List ℕ} → Ending src → Ends src (round c src)
unfolding round has_flag
round-Ends c {src} e =
    by_test (Ends src) (starts_ident c)
      (λ _. by_option ident (λ _ w. w) (skip_while-Skips (has_flag cf_ident_continue) refl e))
      (λ _.
        by_test (Ends src) ((c == b'\'') || (c == b'"'))
          (λ q. by_literal (
            scan_literal-Closes false c (tok_str_lit + bit_and c 1 * 2)
              (not_newline c (λ (d : ℕ). (d == b'\'') || (d == b'"')) refl q) e))
          (λ _.
            by_test (Ends src) (c == b'.') (λ _. dot-Ends e)
              (λ _.
                by_test (Ends src) (is_decimal c)
                  (λ _. by_option (token tok_number) (λ _ w. w) (scan_number-Skips c e))
                  (λ _.
                    by_test (Ends src) (is_one_of simple_puncts c)
                      (λ _. at_once (token (tok_punct c) src) (all_left e))
                      (λ _.
                        by_test (Ends src) (is_one_of repeated_puncts c)
                          (λ q.
                            flagged-Ends c c punct_repeat
                              (not_newline c (is_one_of repeated_puncts) refl q) e)
                          (λ _.
                            by_test (Ends src) (is_one_of equals_puncts c)
                              (λ _. flagged-Ends c b'=' punct_eq refl e)
                              (λ _.
                                by_test (Ends src) (c == b'/') (λ _. slash-Ends e)
                                  (λ _.
                                    by_test (Ends src) (c == b'\r') (λ _. carriage_return-Ends e)
                                      (λ _.
                                        by_test (Ends src) (c == b'\n')
                                          (λ _. at_once (line src) (Line-Within (all_left e)))
                                          (λ _. other_round-Ends c e))))))))))

pub round_newline : round b'\n' (0 ∷ []) ≡ some (line (0 ∷ []))
unfolding round
round_newline = refl

pub round_end : round 0 [] ≡ some eof
unfolding round
round_end = refl

-- ===== src/Tokenise.antt =====
-- src/tokenise.c: the tokeniser of the repository's text files. The text is the list of its bytes,
-- with the "\n\0" that `tokeniser_run` writes behind them, and `src` is what is left of it, so that
-- `src - base` is the length that is gone. A read behind the end of the buffer is `none`. The
-- arrays of tokens and of line starts are lists, which grow without limit. The table of identifiers
-- is that of src/sht.c; here it is any `intern` that turns the bytes of an identifier into a number.
pub mod Chars
pub mod Scan
pub mod Run
pub mod Lines
pub mod Decode

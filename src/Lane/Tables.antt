-- ===== src/Lane/Tables.antt =====
-- The Buckwalter letters of Perseus, and the roots that Lane files under another heading.
use wird.Prelude.{ℕ, [], ◌∷◌}
use wird.Prelude.Map.{Map}
use wird.Text.{Word}
use wird.Text.Ascii.{ascii}

unfoldable pub two : Map Word ℕ
two = (ascii "A^", 0x0623) ∷ (ascii "y^", 0x0626) ∷ (ascii "w^", 0x0624) ∷ []

unfoldable pub one : Map ℕ ℕ
one =
    (0x41, 0x0627)
    ∷ (0x59, 0x0649)
    ∷ (0x62, 0x0628)
    ∷ (0x74, 0x062A)
    ∷ (0x76, 0x062B)
    ∷ (0x6A, 0x062C)
    ∷ (0x48, 0x062D)
    ∷ (0x78, 0x062E)
    ∷ (0x64, 0x062F)
    ∷ (0x2A, 0x0630)
    ∷ (0x72, 0x0631)
    ∷ (0x7A, 0x0632)
    ∷ (0x73, 0x0633)
    ∷ (0x24, 0x0634)
    ∷ (0x53, 0x0635)
    ∷ (0x44, 0x0636)
    ∷ (0x54, 0x0637)
    ∷ (0x5A, 0x0638)
    ∷ (0x45, 0x0639)
    ∷ (0x67, 0x063A)
    ∷ (0x66, 0x0641)
    ∷ (0x71, 0x0642)
    ∷ (0x6B, 0x0643)
    ∷ (0x6C, 0x0644)
    ∷ (0x6D, 0x0645)
    ∷ (0x6E, 0x0646)
    ∷ (0x68, 0x0647)
    ∷ (0x77, 0x0648)
    ∷ (0x79, 0x064A)
    ∷ []

unfoldable pub filed_elsewhere : Map Word Word
filed_elsewhere =
    ((0x0628 ∷ 0x0642 ∷ 0x0644 ∷ []), ascii "baqala")
    ∷ ((0x062A ∷ 0x064A ∷ 0x0647 ∷ []), ascii "tyn")
    ∷ ((0x062C ∷ 0x062D ∷ 0x062F ∷ []), ascii "Hd")
    ∷ ((0x062C ∷ 0x062D ∷ 0x0645 ∷ []), ascii "jHfl")
    ∷ ((0x062C ∷ 0x0647 ∷ 0x0632 ∷ []), ascii "Hhz")
    ∷ ((0x062C ∷ 0x0647 ∷ 0x0644 ∷ []), ascii "jahila")
    ∷ ((0x062D ∷ 0x0631 ∷ 0x062B ∷ []), ascii "Hrb")
    ∷ ((0x062D ∷ 0x0648 ∷ 0x062C ∷ []), ascii "HaAja")
    ∷ ((0x062E ∷ 0x0628 ∷ 0x062A ∷ []), ascii "xbv")
    ∷ ((0x062F ∷ 0x0628 ∷ 0x0631 ∷ []), ascii "dbx")
    ∷ ((0x062F ∷ 0x0648 ∷ 0x0631 ∷ []), ascii "dwrd")
    ∷ ((0x0634 ∷ 0x0623 ∷ 0x0645 ∷ []), ascii "$m")
    ∷ ((0x0646 ∷ 0x062D ∷ 0x062A ∷ []), ascii "nxt")
    ∷ ((0x0646 ∷ 0x0635 ∷ 0x062A ∷ []), ascii "nSb")
    ∷ ((0x0646 ∷ 0x0636 ∷ 0x062E ∷ []), ascii "nDH")
    ∷ ((0x0646 ∷ 0x0641 ∷ 0x062D ∷ []), ascii "tfH")
    ∷ ((0x0646 ∷ 0x0648 ∷ 0x0645 ∷ []), ascii "nAm")
    ∷ ((0x0647 ∷ 0x0623 ∷ 0x062A ∷ []), ascii "hyt")
    ∷ []

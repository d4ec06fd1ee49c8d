-- ===== src/Ebcdic/Tests.antt =====
-- The theorems on solomon-core/src/ebcdic.rs at concrete texts.
use project_solomon.Prelude.{[], ◌∷◌, All, ◌≡◌, true, ◌↔◌, arith}
use project_solomon.Ebcdic.{ascii_to_ebcdic, ebcdic_to_ascii}
use project_solomon.Ebcdic.Inverse.{is_kept, ebcdic_to_ascii-ascii_to_ebcdic}

ebcdic_to_ascii-ascii_to_ebcdic_example :
    (ebcdic_to_ascii (ascii_to_ebcdic (b'A' ∷ b'^' ∷ [])) ≡ b'A' ∷ b'^' ∷ [])
    ↔ All (λ b. is_kept b ≡ true) (b'A' ∷ b'^' ∷ [])
ebcdic_to_ascii-ascii_to_ebcdic_example =
    ebcdic_to_ascii-ascii_to_ebcdic (b'A' ∷ b'^' ∷ []) (omega arith)

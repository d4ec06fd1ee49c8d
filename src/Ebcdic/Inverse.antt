-- ===== src/Ebcdic/Inverse.antt =====
-- Where the two translations of solomon-core/src/ebcdic.rs are inverse to each other.
use project_solomon.Prelude.{ℕ, ◌<◌, List, [], ◌∷◌, All, get_or, Bool, true, not, ◌||◌, ◌==◌}
use project_solomon.Prelude.{◌≡◌, refl, sym, ap, ap₂, ◌∙◌, ◌↔◌, all_below, all_below_sound, bool_eq}
use project_solomon.Prelude.{eq_of_bool_eq, ==_iff}
use project_solomon.Ebcdic.{ascii_to_ebcdic, ebcdic_to_ascii, ascii_to_ebcdic_in_place}
use project_solomon.Ebcdic.{ebcdic_to_ascii_in_place, ascii_to_ebcdic_cp037, ebcdic_to_ascii_cp037}

abbrev there : ℕ → ℕ
there b = get_or ascii_to_ebcdic_cp037 b 0

abbrev back : ℕ → ℕ
back b = get_or ebcdic_to_ascii_cp037 b 0

-- The bytes that the two tables give back: all but three.
abbrev pub is_kept : ℕ → Bool
is_kept b = not (b == 0x5E || (b == 0xB5 || b == 0xDD))

kept_table : all_below 256 (λ b. bool_eq (back (there b) == b) (is_kept b)) ≡ true
unfolding all_below ascii_to_ebcdic_cp037 ebcdic_to_ascii_cp037
kept_table = refl

back-there : (b : ℕ) → b < 256 → (back (there b) == b) ≡ is_kept b
back-there b h =
    eq_of_bool_eq (back (there b) == b) (is_kept b)
      (all_below_sound 256 (λ b. bool_eq (back (there b) == b) (is_kept b)) b kept_table h)

cons_parts : (x y : ℕ) (xs ys : List ℕ) → x ∷ xs ≡ y ∷ ys → (x ≡ y) × (xs ≡ ys)
cons_parts x y xs ys e = (cc, cc)

-- A text of bytes that goes to EBCDIC and back is unchanged exactly if it has none of the bytes 0x5E
-- (the circumflex), 0xB5 and 0xDD.
pub ebcdic_to_ascii-ascii_to_ebcdic :
    (text : List ℕ)
    → All (λ b. b < 256) text
    → (ebcdic_to_ascii (ascii_to_ebcdic text) ≡ text) ↔ All (λ b. is_kept b ≡ true) text
unfolding ascii_to_ebcdic ebcdic_to_ascii
ebcdic_to_ascii-ascii_to_ebcdic [] h = (λ e. tt, λ k. refl)
ebcdic_to_ascii-ascii_to_ebcdic (b ∷ text) (h, hs) = (
  λ e.
      let (same, rest) =
        cons_parts (back (there b)) b (ebcdic_to_ascii (ascii_to_ebcdic text)) text e in
      (
        sym (back-there b h) ∙ (==_iff (back (there b)) b).1 same,
        (ebcdic_to_ascii-ascii_to_ebcdic text hs).0 rest,
      ),
  λ k.
      ap₂ (λ x xs. x ∷ xs) ((==_iff (back (there b)) b).0 (back-there b h ∙ k.0))
        ((ebcdic_to_ascii-ascii_to_ebcdic text hs).1 k.1),
)

-- Converting a buffer in place gives what the other functions return.
in_place_lem :
    (buf : List ℕ)
    → (ascii_to_ebcdic_in_place buf ≡ ascii_to_ebcdic buf)
      × (ebcdic_to_ascii_in_place buf ≡ ebcdic_to_ascii buf)
unfolding ascii_to_ebcdic_in_place ebcdic_to_ascii_in_place ascii_to_ebcdic ebcdic_to_ascii
in_place_lem [] = (refl, refl)
in_place_lem (b ∷ buf) =
    (ap (λ t. there b ∷ t) (in_place_lem buf).0, ap (λ t. back b ∷ t) (in_place_lem buf).1)

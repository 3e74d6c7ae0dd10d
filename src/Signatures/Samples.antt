-- ===== src/Signatures/Samples.antt =====
-- The search and the signature file on small inputs, and each theorem of them at one.
use helios_net.Prelude.{ℕ, ◌≡◌, ◌↔◌, refl, some, List, [], ◌∷◌, In, All, Unique, arith}
use helios_net.Prelude.Int.{pos}
use helios_net.Prelude.Text.{Text, codes}
use helios_net.Signatures.{push_start, find_all_occurrences, utf8, utf8_char, byte_offset}
use helios_net.Signatures.Search.{Occurs, Ascends, find_all_occurrences-Occurs}
use helios_net.Signatures.File.{Signature, load_signatures}
use helios_net.Signatures.File.Lines.{IsListed, join_lines, load_signatures-IsListed}

-- Occurrences that overlap are all found.
overlaps : find_all_occurrences (codes "aaaa") (codes "aa") ≡ some (0 ∷ 1 ∷ 2 ∷ [])
unfolding find_all_occurrences push_start
overlaps = refl

-- Behind a character of two bytes the offset is one more than the index.
behind_two_bytes : byte_offset (0xDC ∷ codes "ssh") (pos 1) ≡ pos 2
unfolding byte_offset utf8 utf8_char
behind_two_bytes = refl

abbrev file : Text
file = codes "# names\nssh\tOpenSSH \n\nssh\tOpenSSH\nnginx\n"

-- The trailing blank is cut before the pattern is read, so the third line repeats the second.
file_read :
    load_signatures (some file)
    ≡ (codes "ssh", codes "OpenSSH") ∷ (codes "nginx", codes "nginx") ∷ []
unfolding load_signatures
file_read = refl

find_all_occurrences-Occurs_example :
    (found : List ℕ) × (find_all_occurrences (codes "aaaa") (codes "aa") ≡ some found)
    × Ascends 0 found
    × ((k : ℕ) → In k found ↔ Occurs (codes "aa") (codes "aaaa") k)
find_all_occurrences-Occurs_example =
    find_all_occurrences-Occurs (codes "aaaa") (codes "aa") (λ h. ground arith)

load_signatures-IsListed_example :
    Unique (load_signatures (some file))
    × (lines : List Text) × (join_lines lines ≡ file)
    × All (λ l. ¬ In b'\n' l) lines
    × ((x : Signature) → In x (load_signatures (some file)) ↔ IsListed lines x)
load_signatures-IsListed_example = load_signatures-IsListed file

-- ===== src/Text.antt =====
-- Go's `strings.TrimSpace`, which the engine applies to comments and reasons.
use Prim.Native.Char.{code}
use vogel.Prelude.{ℕ, String, Bool, ◌&&◌, ◌||◌, leb, ◌==◌, nat_eq, if◌then◌else◌}

-- `unicode.IsSpace`
is_space : ℕ → Bool
is_space c =
    (leb 9 c && leb c 13)
    || (c == 0x20
        || (c == 0x85
            || (c == 0xa0
                || (c == 0x1680
                    || ((leb 0x2000 c && leb c 0x200a)
                        || (c == 0x2028
                            || (c == 0x2029 || (c == 0x202f || (c == 0x205f || c == 0x3000)))))))))

trim_left : String → String
trim_left String.[] = String.[]
trim_left (String.◌∷◌ c s) = if is_space (code c) then trim_left s else String.◌∷◌ c s

reverse_onto : String → String → String
reverse_onto String.[] acc = acc
reverse_onto (String.◌∷◌ c s) acc = reverse_onto s (String.◌∷◌ c acc)

unfoldable pub trim_space : String → String
unfolding is_space trim_left reverse_onto
trim_space s = reverse_onto (trim_left (reverse_onto (trim_left s) String.[])) String.[]

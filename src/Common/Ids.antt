-- ===== src/Common/Ids.antt =====
-- The identifiers that several parts of the server test with one regular expression.
use titra.Common.Equality.{Text}
use titra.Common.Tests.{leb, eqb}
use titra.Common.Lists.{every, length}
use Prim.Native.Nat.{ℕ}
use mathlib.Core.Bool.{Bool, ◌&&◌, ◌||◌}

-- `[A-Za-z0-9._:-]`
unfoldable pub is_id_char : ℕ → Bool
is_id_char c =
    (leb b'A' c && leb c b'Z')
    || (leb b'a' c && leb c b'z')
    || (leb b'0' c && leb c b'9')
    || eqb c b'.'
    || eqb c b'_'
    || eqb c b':'
    || eqb c b'-'

-- At least `low` and at most 128 of these characters.
unfoldable pub is_safe_id : ℕ → Text → Bool
unfolding every is_id_char
is_safe_id low s = leb low (length s) && leb (length s) 128 && every is_id_char s

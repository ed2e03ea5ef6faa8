-- ===== src/Worker/Patterns.antt =====
-- graph/worker.py `_KEY` and `_ACTOR`: the texts that a redrive accepts, and `len` of a text.
use Prim.Native.Nat.{ℕ, suc}
use Prim.Native.Char.{code}
use Prim.Native.String.{String}
use mathlib.Core.Bool.{Bool, true, false, ◌&&◌, ◌||◌}
use invoice_ops.Prelude.Tests.{leb, ltb, ◌==◌}

-- `[A-Za-z0-9]`
abbrev is_alphanumeric : ℕ → Bool
is_alphanumeric c = (leb 48 c && leb c 57) || (leb 65 c && leb c 90) || (leb 97 c && leb c 122)

-- `[A-Za-z0-9._:-]` and `[A-Za-z0-9._:@-]`
abbrev is_key_char : ℕ → Bool
is_key_char c = is_alphanumeric c || c == 46 || c == 95 || c == 58 || c == 45

abbrev is_actor_char : ℕ → Bool
is_actor_char c = is_key_char c || c == 64

-- `len(text)`
unfoldable pub text_length : String → ℕ
text_length String.[] = 0
text_length (String.◌∷◌ c s) = suc (text_length s)

unfoldable pub all_chars : (ℕ → Bool) → String → Bool
all_chars allowed String.[] = true
all_chars allowed (String.◌∷◌ c s) = allowed (code c) && all_chars allowed s

-- `^[A-Za-z0-9][...]{0,127}$`
unfoldable pub is_name : (ℕ → Bool) → String → Bool
unfolding text_length all_chars
is_name allowed String.[] = false
is_name allowed (String.◌∷◌ c s) =
    is_alphanumeric (code c) && all_chars allowed s && leb (text_length s) 127

unfoldable pub is_key : String → Bool
unfolding is_name
is_key text = is_name is_key_char text

unfoldable pub is_actor : String → Bool
unfolding is_name
is_actor text = is_name is_actor_char text

-- `len(reason) > 2000`
unfoldable pub is_long : String → Bool
unfolding text_length
is_long text = ltb 2000 (text_length text)

-- ===== src/Config.antt =====
-- The readers of the appliance's two inventories: `hyper_clients_read` of service/client-config.c and
-- `hyper_networks_read` of service/network-config.c. The C library is a parameter: whether the file
-- opens, the lines that `fgets` returns, whether the stream failed, what `sscanf` converts and
-- `strtoul`. A text is the list of its bytes before the terminating zero.
pub mod Clients
pub mod Networks
use hype_r_io_vm.Base.{ℕ, Bool, true, false, ◌&&◌, ◌||◌, not, List, [], ◌∷◌, ◌==◌, leb}

abbrev pub Text : Type 0
Text = List ℕ

-- `!strcmp(a, b)`
unfoldable pub same : Text → Text → Bool
same [] [] = true
same [] (d ∷ b) = false
same (c ∷ a) [] = false
same (c ∷ a) (d ∷ b) = c == d && same a b

-- `isdigit`
abbrev pub is_digit : ℕ → Bool
is_digit c = leb 48 c && leb c 57

abbrev pub is_lower : ℕ → Bool
is_lower c = leb 97 c && leb c 122

abbrev pub is_upper : ℕ → Bool
is_upper c = leb 65 c && leb c 90

-- The loop `for (p = text; *p; ++p) if (!isdigit(*p)) goto invalid`.
unfoldable pub all_digits : Text → Bool
all_digits [] = true
all_digits (c ∷ text) = is_digit c && all_digits text

-- `strchr(line, '\n')`
unfoldable pub has_newline : Text → Bool
has_newline [] = false
has_newline (c ∷ line) = c == 10 || has_newline line

-- ===== src/Domain/Shared/Types.antt =====
-- domain/shared/types.go. An ID is its text (UserID, TenantID and WorkspaceID only wrap one), a
-- timestamp is the nanoseconds since Go's zero time, and an int64 version is its bit pattern.
use pyairtable_go_services.Prelude.{
  ℕ, ◌+◌, ◌%◌, String, len, runes, Bool, true, false, not, ◌&&◌, ◌||◌, List, [], ◌∷◌, leb, ltb,
  ◌==◌, str_eq, if◌then◌else◌,
}

-- What a call takes from its surroundings: the clock at its i-th reading, the i-th identifier that
-- uuid.New returns, and strings.ToLower, which goes by Unicode's tables.
pub record Env : Type 0 where
  pub now : ℕ → ℕ
  pub uuid : ℕ → String
  pub to_lower : String → String

abbrev pub word : ℕ
word = 18446744073709551616

abbrev pub int64_room : ℕ
int64_room = 9223372036854775808

-- The place of a bit pattern in the order of int64, from the least negative number up.
abbrev pub rank : ℕ → ℕ
rank v = (v + int64_room) % word

abbrev pub ltb_int64 : ℕ → ℕ → Bool
ltb_int64 a b = ltb (rank a) (rank b)

abbrev pub leb_int64 : ℕ → ℕ → Bool
leb_int64 a b = leb (rank a) (rank b)

unfoldable pub new_version : ℕ
new_version = 1

-- Version.Next
unfoldable pub next : ℕ → ℕ
next v = (v + 1) % word

pub record Email : Type 0 where
  pub value : String

unfoldable pub email_is_empty : Email → Bool
email_is_empty e = str_eq e.value ""

count_at : List ℕ → ℕ
count_at [] = 0
count_at (c ∷ cs) = let rest = count_at cs in if c == b'@' then rest + 1 else rest

unfoldable pub contains_at : String → Bool
unfolding count_at
contains_at s = count_at (runes s) == 1

abbrev is_special : ℕ → Bool
is_special c = c == b'.' || c == b'@'

ends_special : List ℕ → Bool
ends_special [] = false
ends_special (c ∷ []) = is_special c
ends_special (c ∷ d ∷ cs) = ends_special (d ∷ cs)

starts_special : List ℕ → Bool
starts_special [] = false
starts_special (c ∷ cs) = is_special c

unfoldable pub starts_or_ends_with_special_char : String → Bool
unfolding starts_special ends_special
starts_or_ends_with_special_char s = starts_special (runes s) || ends_special (runes s)

unfoldable pub is_valid_email : String → Bool
unfolding contains_at starts_or_ends_with_special_char
is_valid_email email =
    not (len email == 0)
    && leb (len email) 254
    && contains_at email
    && not (starts_or_ends_with_special_char email)

-- On failure Go returns the empty email beside ErrInvalidEmail.
unfoldable pub new_email : String → Email × Bool
new_email email =
    if is_valid_email email
    then (record { value = email }, true)
    else (record { value = "" }, false)

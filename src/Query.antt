-- ===== src/Query.antt =====
-- The binary formats of backend/query.go: byteReader, the replies to A2S_INFO and A2S_PLAYER, the
-- header of a split reply, the pong of Bedrock servers, and the numbers of Minecraft's protocol. The
-- connections are outside, and so is the JSON reply of Minecraft. How the seconds of a player are
-- written is an argument, since they are a float32. A reply is a list of bytes.
pub mod Packets
pub mod Numbers
pub mod Replies
mod Examples
use linuxgsm_dashboard.Base.{
  ℕ, zero, suc, ◌+◌, ◌-◌, ◌*◌, ◌/◌, ◌%◌, ◌^◌, ◌==◌, Text, codes, List, [], ◌∷◌, ◌++◌, Bool, true,
  false, not, ◌&&◌, ◌||◌, Option, none, some, ltb, leb, if◌then◌else◌, eqt, cut, split_on, drop,
  take, length, ℤ, pos, negsuc, atoi, get_or, all_of, digit_byte, max_int,
}
use linuxgsm_dashboard.Totp.{trim_space}

-- What is left to read; `none` once there was an error.
abbrev pub Reader : Type 0
Reader = Option Text

unfoldable pub u8 : Reader → ℕ × Reader
u8 (some (b ∷ s)) = (b, some s)
u8 _ = (0, none)

-- Little endian
unfoldable pub u16 : Reader → ℕ × Reader
u16 (some (a ∷ b ∷ s)) = (a + 256 * b, some s)
u16 _ = (0, none)

unfoldable pub u32 : Reader → ℕ × Reader
u32 (some (a ∷ b ∷ c ∷ d ∷ s)) = (a + 256 * b + 65536 * c + 16777216 * d, some s)
u32 _ = (0, none)

abbrev pub up_to_nul : Option (Text × Text) → Text × Reader
up_to_nul none = ([], none)
up_to_nul (some (s, rest)) = (s, some rest)

unfoldable pub str : Reader → Text × Reader
str none = ([], none)
str (some s) = up_to_nul (cut 0 s)

-- The fields of QueryInfo that the replies fill.
pub record QueryInfo : Type 0 where
  pub name : Text
  pub map : Text
  pub num_players : ℤ
  pub max_players : ℤ
  pub bots : ℕ

abbrev pub unless_failed {ℓ} : {A : Type ℓ} → Reader → A → Option A
unless_failed none a = none
unless_failed (some rest) a = some a

unfoldable pub source_info : Reader → Option QueryInfo
source_info r =
    let (protocol, r) = u8 r in
    let (name, r) = str r in
    let (map, r) = str r in
    let (folder, r) = str r in
    let (game, r) = str r in
    let (app_id, r) = u16 r in
    let (players, r) = u8 r in
    let (max, r) = u8 r in
    let (bots, r) = u8 r in
    unless_failed r (record {
      name = name;
      map = map;
      num_players = pos players;
      max_players = pos max;
      bots = bots;
    })

unfoldable pub goldsrc_info : Reader → Option QueryInfo
goldsrc_info r =
    let (address, r) = str r in
    let (name, r) = str r in
    let (map, r) = str r in
    let (folder, r) = str r in
    let (game, r) = str r in
    let (players, r) = u8 r in
    let (max, r) = u8 r in
    unless_failed r (record {
      name = name;
      map = map;
      num_players = pos players;
      max_players = pos max;
      bots = 0;
    })

unfoldable pub parse_a2s_info : Text → Option QueryInfo
parse_a2s_info resp =
    let (kind, r) = u8 (some resp) in
    if kind == b'I' then source_info r else if kind == b'm' then goldsrc_info r else none

pub record PlayerInfo : Type 0 where
  pub name : Text
  pub score : ℤ
  pub time : Text

-- int32 of a uint32
unfoldable pub int32 : ℕ → ℤ
int32 n = if ltb n (2 ^ 31) then pos n else negsuc (2 ^ 32 - 1 - n)

abbrev pub listed : (ℕ → Text) → Text → ℕ → ℕ → List PlayerInfo → List PlayerInfo
listed format name score seconds players =
    if eqt (trim_space name) []
    then players
    else record { name = name; score = int32 score; time = format seconds } ∷ players

-- One player: name, score and seconds.
unfoldable pub read_player : Text → Text × ℕ × ℕ × Reader
read_player s =
    let (index, r) = u8 (some s) in
    let (name, r) = str r in
    let (score, r) = u32 r in let (seconds, r) = u32 r in (name, score, seconds, r)

-- The loop over so many players; it ends at the first that cannot be read.
unfoldable pub players_loop : (ℕ → Text) → ℕ → Reader → List PlayerInfo
players_loop format zero r = []
players_loop format (suc n) none = []
players_loop format (suc n) (some s) =
    let (name, score, seconds, r) = read_player s in
    let more = players_loop format n r in
    elim r [ none ↦ [] | some rest ↦ listed format name score seconds more ]

unfoldable pub parse_a2s_players : (ℕ → Text) → Text → Option (List PlayerInfo)
parse_a2s_players format resp =
    let (kind, r) = u8 (some resp) in
    let (count, r) = u8 r in if kind == b'D' then some (players_loop format count r) else none

-- appendVarInt: a uint32 takes five bytes at most.
unfoldable pub var_int_bytes : ℕ → ℕ → Text
var_int_bytes zero u = u % 256 ∷ []
var_int_bytes (suc rounds) u =
    let more = var_int_bytes rounds (u / 128) in
    if ltb u 128 then u ∷ [] else (u % 128 + 128) ∷ more

-- uint32 of an int32
unfoldable pub uint32 : ℤ → ℕ
uint32 (pos n) = n % 2 ^ 32
uint32 (negsuc n) = 2 ^ 32 - 1 - n % 2 ^ 32

unfoldable pub append_var_int : Text → ℤ → Text
append_var_int b v = b ++ var_int_bytes 4 (uint32 v)

-- The loop of readVarInt: the rounds that are left, the weight of the next seven bits, and the result.
unfoldable pub var_int_loop : ℕ → ℕ → ℕ → Text → Option (ℕ × Text)
var_int_loop zero weight result s = none
var_int_loop (suc rounds) weight result [] = none
var_int_loop (suc rounds) weight result (b ∷ s) =
    let next = (result + b % 128 * weight) % 2 ^ 32 in
    let more = var_int_loop rounds (weight * 128) next s in
    if ltb b 128 then some (next, s) else more

abbrev pub signed : Option (ℕ × Text) → Option (ℤ × Text)
signed none = none
signed (some (n, s)) = some (int32 n, s)

unfoldable pub read_var_int : Text → Option (ℤ × Text)
read_var_int s = signed (var_int_loop 5 1 0 s)

-- ===== src/Query/Packets.antt =====
-- The parts of a split A2S reply and the pong of a Bedrock server (backend/query.go).
use linuxgsm_dashboard.Base.{
  ℕ, ◌+◌, ◌*◌, ◌/◌, ◌%◌, ◌==◌, Text, List, [], ◌∷◌, Bool, false, not, ◌&&◌, ◌||◌, Option, none,
  some, ltb, leb, if◌then◌else◌, eqt, split_on, drop, take, length, ℤ, pos, negsuc, atoi, get_or,
  all_of, digit_byte, max_int,
}
use linuxgsm_dashboard.Query.{QueryInfo}

-- The layouts of a split reply.
pub data Layout : Type 0 where
  source source_old goldsrc : Layout

abbrev pub a2s_max_split_parts : ℕ
a2s_max_split_parts = 32

-- FF FF FF FF stands at the position.
abbrev pub starts : ℕ → Text → Bool
starts at p = eqt (take 4 (drop at p)) (255 ∷ 255 ∷ 255 ∷ 255 ∷ [])

unfoldable pub detect_a2s_split_layout : Text → Option Layout
detect_a2s_split_layout p =
    if starts 9 p && get_or p 8 0 / 16 == 0
    then some goldsrc
    else if ltb 9 (length p) && not (get_or p 9 0 == 0)
    then none
    else if starts 10 p
    then some source_old
    else if starts 12 p
    then some source
    else none

unfoldable pub header_len : Layout → ℕ
header_len source = 12
header_len source_old = 10
header_len goldsrc = 9

-- Total and number of a part.
unfoldable pub part_position : Layout → Text → ℕ × ℕ
part_position goldsrc p = (get_or p 8 0 % 16, get_or p 8 0 / 16)
part_position _ p = (get_or p 8 0, get_or p 9 0)

unfoldable pub parse_a2s_split : Text → Layout → Option (ℕ × ℕ × Text)
parse_a2s_split p layout =
    let (total, number) = part_position layout p in
    if ltb (length p) (header_len layout)
    then none
    else if total == 0 || (ltb a2s_max_split_parts total || leb total number)
    then none
    else some (total, number, drop (header_len layout) p)

-- raknetMagic
abbrev pub raknet_magic : Text
raknet_magic =
    0 ∷ 255 ∷ 255 ∷ 0 ∷ 254 ∷ 254 ∷ 254 ∷ 254 ∷ 253 ∷ 253 ∷ 253 ∷ 253 ∷ 18 ∷ 52 ∷ 86 ∷ 120 ∷ []

abbrev pub all_digits : Text → Bool
all_digits [] = false
all_digits (c ∷ s) = all_of digit_byte (c ∷ s)

-- The value that strconv.Atoi gives with an error: the closest int where only the range is wrong.
unfoldable pub nearest_int : Text → ℤ
nearest_int [] = pos 0
nearest_int (c ∷ s) =
    if c == b'-'
    then if all_digits s then negsuc max_int else pos 0
    else if c == b'+'
    then if all_digits s then pos max_int else pos 0
    else if all_digits (c ∷ s)
    then pos max_int
    else pos 0

unfoldable pub atoi_value : Text → ℤ
atoi_value s = elim (atoi s) [ none ↦ nearest_int s | some n ↦ n ]

abbrev pub field : List Text → ℕ → Text
field fs i = get_or fs i []

unfoldable pub pong_info : List Text → Option QueryInfo
pong_info fs =
    if ltb (length fs) 6
    then none
    else some (record {
      name = field fs 1;
      map = if ltb 7 (length fs) then field fs 7 else [];
      num_players = atoi_value (field fs 4);
      max_players = atoi_value (field fs 5);
      bots = 0;
    })

-- The two bytes of the length, big endian.
abbrev pub pong_length : Text → ℕ
pong_length b = get_or b 33 0 * 256 + get_or b 34 0

unfoldable pub parse_bedrock_pong : Text → Option QueryInfo
parse_bedrock_pong b =
    if ltb (length b) 35 || not (get_or b 0 0 == 28 && eqt (take 16 (drop 17 b)) raknet_magic)
    then none
    else if ltb (length b) (35 + pong_length b)
    then none
    else pong_info (split_on b';' (take (pong_length b) (drop 35 b)))

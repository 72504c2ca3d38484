-- ===== src/Query/Replies.antt =====
-- About the replies to A2S_INFO and A2S_PLAYER as backend/query.go parses them: against what a server
-- sends.
use linuxgsm_dashboard.Base.{
  ℤ, Bool, any_of, not, Bool-cases, inl, inr, eqt, ℕ, suc, ◌/◌, ◌%◌, ◌^◌, ◌<◌, ◌≡◌, ◌∙◌, refl, ap,
  Text, List, [], ◌∷◌, ◌++◌, some, arith, length, if◌then◌else◌, true, false, Lacks, cut-append,
  pos, All,
}
use linuxgsm_dashboard.Totp.{is_space, trim_left, trim_right, trim_space}
use linuxgsm_dashboard.Query.Numbers.{IsInt32, int32-uint32, uint32-lt}
use linuxgsm_dashboard.Query.{
  uint32, u8, u16, u32, str, QueryInfo, source_info, goldsrc_info, parse_a2s_info, PlayerInfo,
  listed, players_loop, read_player, parse_a2s_players,
}

-- What a server says of itself.
pub record Sent : Type 0 where
  pub protocol : ℕ
  pub name : Text
  pub map : Text
  pub folder : Text
  pub game : Text
  pub app_low : ℕ
  pub app_high : ℕ
  pub players : ℕ
  pub max : ℕ
  pub bots : ℕ

-- No text that is sent has a NUL byte.
pub record IsSendable (m : Sent) : Type 0 where
  pub name : Lacks 0 m.name
  pub map : Lacks 0 m.map
  pub folder : Lacks 0 m.folder
  pub game : Lacks 0 m.game

abbrev pub nul : Text → Text → Text
nul s rest = s ++ (0 ∷ rest)

-- The reply of a Source server, and what may follow it.
abbrev pub source_reply : Sent → Text → Text
source_reply m rest =
    b'I'
    ∷ m.protocol
    ∷ nul m.name (
        nul m.map
          (nul m.folder (nul m.game (m.app_low ∷ m.app_high ∷ m.players ∷ m.max ∷ m.bots ∷ rest))))

abbrev pub goldsrc_reply : Text → Sent → Text → Text
goldsrc_reply address m rest =
    b'm'
    ∷ nul address (nul m.name (nul m.map (nul m.folder (nul m.game (m.players ∷ m.max ∷ rest)))))

str-nul : (s rest : Text) → Lacks 0 s → str (some (nul s rest)) ≡ (s, some rest)
unfolding str
str-nul s rest h = rw (cut-append 0 s rest h) refl

abbrev pub info_of : Sent → ℕ → QueryInfo
info_of m bots = record {
  name = m.name;
  map = m.map;
  num_players = pos m.players;
  max_players = pos m.max;
  bots = bots;
}

-- The reply of a Source server, and that of an old GoldSrc server, is read as what the server sent,
-- whatever follows it: name, map, players, their maximum, and on Source the bots.
pub parse_a2s_info-reply :
    (m : Sent) (address rest : Text)
    → IsSendable m
    → Lacks 0 address
    → (parse_a2s_info (source_reply m rest) ≡ some (info_of m m.bots))
      × (parse_a2s_info (goldsrc_reply address m rest) ≡ some (info_of m 0))
unfolding parse_a2s_info source_info goldsrc_info u8 u16
parse_a2s_info-reply m address rest s h = (
  rw
      (
        str-nul m.name _ s.name,
        str-nul m.map _ s.map,
        str-nul m.folder _ s.folder,
        str-nul m.game _ s.game,
      )
      refl,
  rw
      (
        str-nul address _ h,
        str-nul m.name _ s.name,
        str-nul m.map _ s.map,
        str-nul m.folder _ s.folder,
        str-nul m.game _ s.game,
      )
      refl,
)

-- A player as a server sends it: the score is an int32, the seconds are the bits of a float32.
pub record Seen : Type 0 where
  pub index : ℕ
  pub name : Text
  pub score : ℤ
  pub seconds : ℕ

abbrev pub IsSeen : Seen → Type 0
IsSeen p = Lacks 0 p.name × IsInt32 p.score × (p.seconds < 2 ^ 32)

abbrev pub le32 : ℕ → Text → Text
le32 n rest = (n % 256) ∷ (n / 256 % 256) ∷ (n / 65536 % 256) ∷ (n / 16777216) ∷ rest

abbrev pub player_bytes : List Seen → Text → Text
player_bytes [] rest = rest
player_bytes (p ∷ ps) rest =
    p.index ∷ nul p.name (le32 (uint32 p.score) (le32 p.seconds (player_bytes ps rest)))

-- The name has a byte that is no white space.
abbrev pub is_named : Seen → Bool
is_named p = any_of (λ c. not (is_space c)) p.name

abbrev pub as_listed : (ℕ → Text) → Seen → PlayerInfo
as_listed format p = record { name = p.name; score = p.score; time = format p.seconds }

-- The players with a name, in their order.
abbrev pub shown : (ℕ → Text) → List Seen → List PlayerInfo
shown format [] = []
shown format (p ∷ ps) = if is_named p then as_listed format p ∷ shown format ps else shown format ps

trim_right-nonblank :
    (s : Text) → any_of (λ c. not (is_space c)) s ≡ true → eqt (trim_right s) [] ≡ false
unfolding trim_right eqt
trim_right-nonblank [] h = cc
trim_right-nonblank (c ∷ s) h = ground (arith, trim_right-nonblank s)

trim_space-blank : (s : Text) → eqt (trim_space s) [] ≡ not (any_of (λ c. not (is_space c)) s)
unfolding trim_space trim_left trim_right eqt
trim_space-blank [] = refl
trim_space-blank (c ∷ s) = ground (arith, trim_space-blank s, trim_right-nonblank (c ∷ s))

-- The test on the name and the score agree with what was sent.
listed-seen :
    (format : ℕ → Text) (p : Seen) (players : List PlayerInfo)
    → IsSeen p
    → listed format p.name (uint32 p.score) p.seconds players
      ≡ (if is_named p then as_listed format p ∷ players else players)
listed-seen format p players h =
    rw (trim_space-blank p.name, int32-uint32 p.score h.1)
      (elim (Bool-cases (is_named p)) [ inl y ↦ ground (arith, y) | inr n ↦ ground (arith, n) ])

u32-le32 : (n : ℕ) (rest : Text) → n < 2 ^ 32 → u32 (some (le32 n rest)) ≡ (n, some rest)
unfolding u32
u32-le32 n rest h = ground arith

player_rest :
    (p : Seen) (s : Text)
    → IsSeen p
    → read_player (p.index ∷ nul p.name (le32 (uint32 p.score) (le32 p.seconds s)))
      ≡ (p.name, uint32 p.score, p.seconds, some s)
unfolding read_player u8
player_rest p s (n, t, u) =
    rw
      (
        read_player,
        u8,
        str-nul p.name (le32 (uint32 p.score) (le32 p.seconds s)) n,
        u32-le32 (uint32 p.score) (le32 p.seconds s) (uint32-lt p.score t),
        u32-le32 p.seconds s u,
      )
      refl

players_loop_step :
    (format : ℕ → Text) (n : ℕ) (s rest name : Text) (score seconds : ℕ)
    → read_player s ≡ (name, score, seconds, some rest)
    → players_loop format (suc n) (some s)
      ≡ listed format name score seconds (players_loop format n (some rest))
unfolding players_loop
players_loop_step format n s rest name score seconds e = ground (arith, e)

players_loop-bytes :
    (format : ℕ → Text) (ps : List Seen) (rest : Text)
    → All IsSeen ps
    → players_loop format (length ps) (some (player_bytes ps rest)) ≡ shown format ps
unfolding players_loop
players_loop-bytes format [] rest h = refl
players_loop-bytes format (p ∷ ps) rest (q, h) =
    players_loop_step format (length ps) (player_bytes (p ∷ ps) rest) (player_bytes ps rest) p.name
      (uint32 p.score) p.seconds (player_rest p (player_bytes ps rest) q)
    ∙ ap (listed format p.name (uint32 p.score) p.seconds) (players_loop-bytes format ps rest h)
    ∙ listed-seen format p (shown format ps) q

-- The reply with the players of a server is read as those of them whose name has more than white space,
-- with the scores and times that were sent, in their order, whatever follows it.
pub parse_a2s_players-reply :
    (format : ℕ → Text) (ps : List Seen) (rest : Text)
    → All IsSeen ps
    → parse_a2s_players format (b'D' ∷ length ps ∷ player_bytes ps rest) ≡ some (shown format ps)
unfolding parse_a2s_players u8
parse_a2s_players-reply format ps rest h = ap some (players_loop-bytes format ps rest h)

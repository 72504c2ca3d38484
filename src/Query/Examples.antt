-- ===== src/Query/Examples.antt =====
-- Replies of a small server, and a negative number in a packet.
use linuxgsm_dashboard.Base.{◌≡◌, codes, [], ◌∷◌, ◌++◌, some, drop, length, arith, negsuc, pos}
use linuxgsm_dashboard.Query.{append_var_int, read_var_int, parse_a2s_info, parse_a2s_players}
use linuxgsm_dashboard.Query.Numbers.{below_zero, nonnegative, read-append_var_int}
use linuxgsm_dashboard.Query.Replies.{
  Sent, IsSendable, source_reply, goldsrc_reply, info_of, Seen, player_bytes, shown,
  parse_a2s_info-reply, parse_a2s_players-reply,
}

read-append_var_int_example :
    read_var_int (drop (length (codes "x")) (append_var_int (codes "x") (negsuc 0) ++ codes "y"))
    ≡ some (negsuc 0, codes "y")
read-append_var_int_example =
    read-append_var_int (codes "x") (codes "y") (negsuc 0) (below_zero 0 (omega arith))

abbrev arena : Sent
arena = record {
  protocol = 17;
  name = codes "Arena";
  map = codes "dm6";
  folder = codes "tf";
  game = codes "TF2";
  app_low = 184;
  app_high = 1;
  players = 2;
  max = 24;
  bots = 1;
}

arena-IsSendable : IsSendable arena
arena-IsSendable = record {
  name = (omega arith, (omega arith, (omega arith, (omega arith, (omega arith, tt)))));
  map = (omega arith, (omega arith, (omega arith, tt)));
  folder = (omega arith, (omega arith, tt));
  game = (omega arith, (omega arith, (omega arith, tt)));
}

parse_a2s_info-reply_example :
    (parse_a2s_info (source_reply arena (codes "more")) ≡ some (info_of arena arena.bots))
    × (parse_a2s_info (goldsrc_reply (codes "a") arena (codes "more")) ≡ some (info_of arena 0))
parse_a2s_info-reply_example =
    parse_a2s_info-reply arena (codes "a") (codes "more") arena-IsSendable (omega arith, tt)

abbrev ann : Seen
ann = record { index = 0; name = codes "ann"; score = negsuc 0; seconds = 0 }

abbrev nameless : Seen
nameless = record { index = 1; name = codes " "; score = pos 0; seconds = 0 }

parse_a2s_players-reply_example :
    parse_a2s_players (λ n. []) (b'D' ∷ 2 ∷ player_bytes (ann ∷ nameless ∷ []) [])
    ≡ some (shown (λ n. []) (ann ∷ nameless ∷ []))
parse_a2s_players-reply_example =
    parse_a2s_players-reply (λ n. []) (ann ∷ nameless ∷ []) []
      (
        ((omega arith, (omega arith, (omega arith, tt))), below_zero 0 (omega arith), omega arith),
        (((omega arith, tt), nonnegative 0 (omega arith), omega arith), tt),
      )

-- ===== src/Cfg/Lines.antt =====
-- About one line of a configuration (backend/lgsmcfg.go): reading back what updateCfgLines writes.
use linuxgsm_dashboard.Base.{
  ℕ, ◌≡◌, ◌≢◌, refl, Text, [], ◌∷◌, ◌++◌, Bool, true, false, ◌&&◌, some, arith, all_of, any_of, All,
  All-append, Lacks,
}
use linuxgsm_dashboard.Ids.{unsafe_cfg_byte, is_safe_cfg_value}
use linuxgsm_dashboard.Totp.{trim_space, trim_left, trim_right}
use linuxgsm_dashboard.Cfg.{
  key_first, key_rest, re_space, rest_of_key, key_and_value, skip_space, trim_cr, assignment,
  double_quoted, value_of, cfg_value, written_line,
}

-- `[A-Za-z_][A-Za-z0-9_]*`
abbrev pub is_key : Text → Bool
is_key [] = false
is_key (c ∷ s) = key_first c && all_of key_rest s

-- No byte of the text ends or changes a quoted value.
abbrev Plain : Text → Type 0
Plain = All (λ c. unsafe_cfg_byte c ≡ false)

any_of-Plain : (v : Text) → any_of unsafe_cfg_byte v ≡ false → Plain v
any_of-Plain [] h = tt
any_of-Plain (c ∷ v) h = (ground arith, any_of-Plain v (ground arith))

safe-Plain : (v : Text) → is_safe_cfg_value v ≡ true → Plain v
unfolding is_safe_cfg_value
safe-Plain v h = any_of-Plain v (ground arith)

Plain-Lacks : (b : ℕ) → unsafe_cfg_byte b ≡ true → (v : Text) → Plain v → Lacks b v
Plain-Lacks b u [] h = tt
Plain-Lacks b u (c ∷ v) h = ((λ e. ground (arith, h.0)), Plain-Lacks b u v h.1)

key-Lacks : (b : ℕ) → key_rest b ≡ false → (k : Text) → all_of key_rest k ≡ true → Lacks b k
key-Lacks b u [] h = tt
key-Lacks b u (c ∷ k) h = ((λ e. ground arith), key-Lacks b u k (ground arith))

key_all : (k : Text) → is_key k ≡ true → all_of key_rest k ≡ true
key_all [] h = cc
key_all (c ∷ k) h = ground arith

-- A line that is written holds no line feed and no carriage return.
line-Lacks :
    (b : ℕ) (k v : Text)
    → key_rest b ≡ false
    → unsafe_cfg_byte b ≡ true
    → b ≢ b'='
    → b ≢ b'"'
    → is_key k ≡ true
    → is_safe_cfg_value v ≡ true
    → Lacks b (written_line k v)
line-Lacks b k v r u n q hk hv =
    All-append _ k (b'=' ∷ b'"' ∷ (v ++ (b'"' ∷ []))) (key-Lacks b r k (key_all k hk)) (
      (λ e. n (cc)),
      (
        (λ e. q (cc)),
        All-append _ v (b'"' ∷ []) (Plain-Lacks b u v (safe-Plain v hv)) ((λ e. q (cc)), tt),
      ),
    )

pub written-Lacks :
    (k v : Text) → is_key k ≡ true → is_safe_cfg_value v ≡ true → Lacks 10 (written_line k v)
written-Lacks k v hk hv =
    line-Lacks 10 k v refl refl (λ e. omega (arith, e)) (λ e. omega (arith, e)) hk hv

trim_cr-Lacks : (s : Text) → Lacks 13 s → trim_cr s ≡ s
unfolding trim_cr
trim_cr-Lacks [] h = refl
trim_cr-Lacks (c ∷ []) h = ground (arith, h.0)
trim_cr-Lacks (c ∷ d ∷ s) h = rw (trim_cr-Lacks (d ∷ s) h.1, trim_cr) refl

rest-append : (k t : Text) → all_of key_rest k ≡ true → rest_of_key (k ++ (b'=' ∷ t)) ≡ some (k, t)
unfolding rest_of_key
rest-append [] t h = refl
rest-append (c ∷ k) t h = ground (arith, rest-append k t)

key-append :
    (k t : Text) → is_key k ≡ true → key_and_value (skip_space (k ++ (b'=' ∷ t))) ≡ some (k, t)
unfolding key_and_value skip_space
key-append [] t h = cc
key-append (c ∷ k) t h =
    let here : re_space c ≡ false = ground arith in
    let r = rest-append k t (ground arith) in ground (arith, r)

assignment-written :
    (k v : Text)
    → is_key k ≡ true
    → is_safe_cfg_value v ≡ true
    → assignment (written_line k v) ≡ some (k, b'"' ∷ (v ++ (b'"' ∷ [])))
unfolding assignment
assignment-written k v hk hv =
    rw
      (
        trim_cr-Lacks (written_line k v)
            (line-Lacks 13 k v refl refl (λ e. omega (arith, e)) (λ e. omega (arith, e)) hk hv),
        assignment,
      )
      (key-append k _ hk)

trim_right-quoted : (v : Text) → trim_right (v ++ (b'"' ∷ [])) ≡ v ++ (b'"' ∷ [])
unfolding trim_right
trim_right-quoted [] = refl
trim_right-quoted (c ∷ []) = refl
trim_right-quoted (c ∷ d ∷ v) = rw (trim_right-quoted (d ∷ v), trim_right) refl

double_quoted-Plain : (v : Text) → Plain v → double_quoted (v ++ (b'"' ∷ [])) ≡ v
unfolding double_quoted
double_quoted-Plain [] h = refl
double_quoted-Plain (c ∷ []) h = ground (arith, h.0)
double_quoted-Plain (c ∷ d ∷ v) h = ground (arith, h.0, double_quoted-Plain (d ∷ v) h.1)

cfg_value-quoted : (v : Text) → Plain v → cfg_value (b'"' ∷ (v ++ (b'"' ∷ []))) ≡ v
unfolding cfg_value trim_space trim_left value_of
cfg_value-quoted v h =
    let t : trim_right (b'"' ∷ (v ++ (b'"' ∷ []))) ≡ b'"' ∷ (v ++ (b'"' ∷ [])) =
      trim_right-quoted (b'"' ∷ v) in
    rw t (double_quoted-Plain v h)

-- What is written for a key and a safe value is read as an assignment of that value to the key.
pub read-written :
    (k v : Text)
    → is_key k ≡ true
    → is_safe_cfg_value v ≡ true
    → (raw : Text) × (assignment (written_line k v) ≡ some (k, raw)) × (cfg_value raw ≡ v)
read-written k v hk hv =
    (b'"' ∷ (v ++ (b'"' ∷ [])), assignment-written k v hk hv, cfg_value-quoted v (safe-Plain v hv))

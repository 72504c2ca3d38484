-- ===== src/Ids/Examples.antt =====
-- The theorems on IDs and on quoting at sample texts.
use linuxgsm_dashboard.Base.{
  codes, ◌≡◌, refl, true, some, eqt, cut, contains, has_prefix, has_suffix,
}
use linuxgsm_dashboard.Ids.{
  is_valid_server_id, is_valid_node_id, is_valid_local_server_id, matches, split_server_id,
  global_server_id, shell_quote,
}
use linuxgsm_dashboard.Ids.Laws.{IdForm, valid_server_id-IdForm, split-global}
use linuxgsm_dashboard.Ids.Quoting.{read_word, bare, read_word-shell_quote}

good_id : is_valid_server_id (codes "lxc-1~vhserver") ≡ true
unfolding is_valid_server_id is_valid_node_id is_valid_local_server_id matches contains has_prefix
    has_suffix cut eqt
good_id = refl

valid_server_id-IdForm_example : IdForm (codes "lxc-1~vhserver")
valid_server_id-IdForm_example = valid_server_id-IdForm (codes "lxc-1~vhserver") good_id

good_node : is_valid_node_id (codes "lxc-1") ≡ true
unfolding is_valid_node_id matches contains has_prefix has_suffix eqt
good_node = refl

split-global_example :
    split_server_id (global_server_id (codes "lxc-1") (codes "a~b")) ≡ (codes "lxc-1", codes "a~b")
split-global_example = split-global (codes "lxc-1") (codes "a~b") good_node

read_word-shell_quote_example :
    read_word bare (shell_quote (codes "it's; rm -rf /")) ≡ some (codes "it's; rm -rf /")
read_word-shell_quote_example = read_word-shell_quote (codes "it's; rm -rf /")

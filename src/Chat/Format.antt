-- ===== src/Chat/Format.antt =====
-- The small pure functions of services/chat-service/internal/service/chat_service.go.
use Prim.Native.String.{◌++◌}
use inline_chat.Prelude.{ℕ, ◌≡◌, refl, String, ◌&&◌, ◌||◌, ltb, leb, str_eq, if◌then◌else◌}
use inline_chat.Prelude.Text.{trim_space, to_lower, format_uint, format_padded4}
use inline_chat.Errors.{Result, ok, err, invalid}

unfoldable pub normalize_actor_role : String → Result String
unfolding trim_space to_lower
normalize_actor_role raw =
    let role = to_lower (trim_space raw) in
    if str_eq role "agent" || str_eq role "admin" || str_eq role "super_admin"
    then ok role
    else err (invalid "invalid actor_role")

unfoldable pub normalize_actor_type : String → Result String
unfolding trim_space to_lower
normalize_actor_type raw =
    let actor_type = to_lower (trim_space raw) in
    if str_eq actor_type "agent" || str_eq actor_type "visitor"
    then ok actor_type
    else err (invalid "invalid actor_type")

unfoldable pub format_agent_id4 : ℕ → String
unfolding format_uint format_padded4
format_agent_id4 id = if ltb 0 id && leb id 9999 then format_padded4 id else format_uint id

unfoldable pub build_conversation_create_lock_key : String → String → String
build_conversation_create_lock_key site token = "conversation:create:" ++ site ++ ":" ++ token

-- `stamp` is the clock in nanoseconds.
unfoldable pub system_client_msg_id : ℕ → ℕ → String
unfolding format_uint
system_client_msg_id conversation_id stamp =
    "sys_transfer_" ++ format_uint conversation_id ++ "_" ++ format_uint stamp

admin_role : normalize_actor_role " Super_Admin " ≡ ok "super_admin"
unfolding normalize_actor_role
admin_role = refl

short_agent_id : format_agent_id4 42 ≡ "0042"
unfolding format_agent_id4
short_agent_id = refl

long_agent_id : format_agent_id4 123456 ≡ "123456"
unfolding format_agent_id4
long_agent_id = refl

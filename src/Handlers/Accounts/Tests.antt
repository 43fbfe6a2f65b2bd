-- ===== src/Handlers/Accounts/Tests.antt =====
-- A registration, which is answered.
use vibranium_quadsquad.Base.{some, []}
use vibranium_quadsquad.Auth.Samples.{manager, sealed}
use vibranium_quadsquad.Users.Samples.{plain, two_users}
use vibranium_quadsquad.Http.{Request}
use vibranium_quadsquad.Handlers.Accounts.{AuthHandler, RegisterRequest, Fresh, handle_register}
use vibranium_quadsquad.Handlers.Accounts.Registers.{Registers, handle_register-Registers}

abbrev handler : AuthHandler
handler = record { token_manager = manager; user_store = some two_users }

abbrev ann_joins : RegisterRequest
ann_joins = record { email = "ann@plm.local"; password = "secret"; username = "ann" }

abbrev post_ann : Request RegisterRequest
post_ann = record {
  method = "POST";
  context = [];
  user_header = "";
  query_id = "";
  path = "/api/v1/auth/register";
  body = some ann_joins;
}

abbrev draw : Fresh
draw = record { now = 7; user_id = "u1"; salt = 0; token_id = "id"; nonce = 0 }

handle_register-Registers_example :
    let (a, h') = handle_register sealed plain handler post_ann draw in
    Registers sealed plain handler (some ann_joins) draw a h'
handle_register-Registers_example = handle_register-Registers sealed plain handler post_ann draw

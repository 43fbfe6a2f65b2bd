-- ===== src/Handlers/Nodes/Access.antt =====
-- Only an administrator changes the mesh graph over HTTP.
use vibranium_quadsquad.Base.{
  ◌≡◌, refl, ap, ◌∙◌, false, not, ◌&&◌, none, some, str_eq, Bool-cases, Option-cases, inl, inr,
  arith,
}
use vibranium_quadsquad.Base.Float.{Float}
use vibranium_quadsquad.Auth.{User, is_admin}
use vibranium_quadsquad.Http.{Context, Request, user_in}
use vibranium_quadsquad.Handlers.Nodes.{
  AdminHandler, CreateNodeRequest, UpdateNodeRequest, CreateEdgeRequest, admin_in,
  handle_create_node, handle_delete_node, handle_update_node, handle_create_edge,
}

-- The context does not hold an administrator.
abbrev pub IsNoAdmin : Context → Type 0
IsNoAdmin c = (u : User) → user_in c ≡ some u → is_admin u ≡ false

no_admin : (c : Context) → IsNoAdmin c → admin_in c ≡ none
unfolding admin_in user_in is_admin
no_admin c h = elim (Option-cases (user_in c)) [
  | inl e ↦ ground (arith, e)
  | inr (u, e) ↦ ground (arith, e, h u e)
]

module _ (f : Float) (h : AdminHandler f) where
  -- A request whose context does not hold an administrator changes nothing, whichever of the four
  -- endpoints that change the graph it is for.
  pub admins_only :
      (c : Context)
      → IsNoAdmin c
      → ((r : Request CreateNodeRequest) → r.context ≡ c → (handle_create_node f h r).1 ≡ h)
        × ((r : Request (Unit {0})) → r.context ≡ c → (handle_delete_node f h r).1 ≡ h)
        × ((r : Request UpdateNodeRequest) → r.context ≡ c → (handle_update_node f h r).1 ≡ h)
        × ((r : Request (CreateEdgeRequest f.F)) → r.context ≡ c → (handle_create_edge f h r).1 ≡ h)
  unfolding handle_create_node handle_delete_node handle_update_node handle_create_edge
  admins_only c denied =
      let e = no_admin c denied in
      (
        λ r in_c. elim (Bool-cases (not (str_eq r.method "POST"))) [
          | inl a ↦ rw a refl
          | inr a ↦ rw (a, in_c, e) refl
        ],
        λ r in_c.
            elim (Bool-cases (not (str_eq r.method "DELETE") && not (str_eq r.method "POST"))) [
              | inl a ↦ rw a refl
              | inr a ↦ rw (a, in_c, e) refl
            ],
        λ r in_c. rw (ap admin_in in_c ∙ e, handle_update_node) refl,
        λ r in_c. elim (Bool-cases (not (str_eq r.method "POST"))) [
          | inl a ↦ rw a refl
          | inr a ↦ rw (a, in_c, e) refl
        ],
      )

-- ===== src/Chains/Access/Laws.antt =====
-- What an authorization that is given, or refused, says of the caller.
use vai_gateway.Prelude.{
  ◌≡◌, ◌≢◌, sym, ap, ◌∙◌, String, false, ◌||◌, not, ◌↔◌, ◌⊎◌, none, ◌==◌, texts_comparable, eq_iff,
  arith, Bool-cases, inl, inr,
}
use vai_gateway.Prelude.Text.{trim_space, is_blank, is_empty_text}
use vai_gateway.Chains.Model.{Principal, HotChain}
use vai_gateway.Chains.Access.{done, authorize_actor, authorize_attach, authorize_org_access}

-- The two names are not blank, and the same but for the space around them.
abbrev pub SameName : String → String → Type 0
SameName a b = (is_blank a ≡ false) × (is_blank b ≡ false) × (trim_space a ≡ trim_space b)

-- A principal has access to a resource exactly if the organisations of both are not blank and are
-- the same, but for the space around their names.
pub authorize_org_access_iff :
    (resource caller : String)
    → (authorize_org_access resource caller ≡ none) ↔ SameName caller resource
unfolding authorize_org_access
authorize_org_access_iff resource caller = (
  λ e. (
    ground arith,
    ground arith,
    ground (arith, eq_iff (trim_space caller) (trim_space resource)),
  ),
  λ h. ground (arith, h.0, h.1, h.2, eq_iff (trim_space caller) (trim_space resource)),
)

-- The actor that an attachment gets: the chain's, if it has one, which the principal must be.
abbrev pub IsActor : HotChain → Principal → String → Type 0
IsActor c p actor =
    ((c.actor_id ≡ "") × (actor ≡ trim_space p.actor_id))
    ⊎ (SameName p.actor_id c.actor_id × (actor ≡ c.actor_id))

blank-same : (a b : String) → trim_space a ≡ trim_space b → is_blank b ≡ is_blank a
unfolding is_blank
blank-same a b e = sym (ap is_empty_text e)

authorize_actor-done :
    (c : HotChain) (p : Principal) (actor : String)
    → authorize_actor c p ≡ done actor
    → IsActor c p actor
unfolding authorize_actor
authorize_actor-done c p actor e = elim (Bool-cases (c.actor_id == "")) [
  | inl free ↦ inl ((eq_iff c.actor_id "").0 free, ground (arith, free, e))
  | inr bound ↦
      elim (Bool-cases
        (is_blank p.actor_id || not (trim_space p.actor_id == trim_space c.actor_id))) [
          | inl refused ↦ absurd (ground (arith, e, bound, refused))
          | inr same ↦
              let actor_here : is_blank p.actor_id ≡ false = ground (arith, same) in
              let one : trim_space p.actor_id ≡ trim_space c.actor_id =
                ground (arith, same, eq_iff (trim_space p.actor_id) (trim_space c.actor_id)) in
              inr (
                (actor_here, blank-same p.actor_id c.actor_id one ∙ actor_here, one),
                ground (arith, e, bound, same),
              )
        ]
]

-- An attachment is granted only to a principal of the chain's organisation that has the chain's
-- resume token, as far as the hash tells, and that is the chain's actor, if the chain has one; the
-- actor that it gets is that one, or its own.
pub authorize_attach-done :
    (hash_token : String → String) (c : HotChain) (p : Principal) (token actor : String)
    → authorize_attach hash_token c p token ≡ done actor
    → SameName p.org_id c.org_id
      × (hash_token token ≡ c.resume_token_hash)
      × (c.resume_token_hash ≢ "")
      × IsActor c p actor
unfolding authorize_attach
authorize_attach-done hash_token c p token actor e =
    elim (Bool-cases (
      is_blank p.org_id || is_blank c.org_id || not (trim_space p.org_id == trim_space c.org_id))) [
        | inl other ↦ absurd (ground (arith, e, other))
        | inr same ↦
            elim (Bool-cases
              (c.resume_token_hash == "" || not (hash_token token == c.resume_token_hash))) [
                | inl wrong ↦ absurd (ground (arith, e, same, wrong))
                | inr right ↦ (
                  (
                    ground (arith, same),
                    ground (arith, same),
                    ground (arith, same, eq_iff (trim_space p.org_id) (trim_space c.org_id)),
                  ),
                  ground (arith, right, eq_iff (hash_token token) c.resume_token_hash),
                  ground (arith, right, eq_iff c.resume_token_hash ""),
                  authorize_actor-done c p actor (rw (same, right, authorize_attach) at e),
                )
              ]
      ]

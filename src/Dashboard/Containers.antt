-- ===== src/Dashboard/Containers.antt =====
-- Which docker commands the dashboard's server runs for a browser, apps/bun/src/bin/ui.ts.
use wormdb.Base.{
  ℕ, ◌≡◌, refl, inl, inr, true, ◌∷◌, none, some, Option, JsString, List, Bool-cases, ◌||◌, sym,
  some-inj, ap, false, [], ◌++◌, arith, subst,
}
use wormdb.Dashboard.Diagnostics.{
  docker_container, handle_docker_action, runs, refuses, has_admin_access, docker_command, or_empty,
  is_empty, is_action,
}
use wormdb.Managed.Dispatch.{starts_with_prefix}
use wormdb.Dashboard.Keys.{same_text_eq}
use wormdb.Managed.Receive.{starts_with}
use wormdb.Text.{codes}
use wormdb.Managed.Subscribe.{same_text}

-- The command for an action on a container.
pub data Commands (container : JsString) : JsString → List JsString → Type 0 where
  stops :
      Commands container
        (codes "stop")
        (codes "docker" ∷ codes "stop" ∷ codes "-t" ∷ codes "10" ∷ container ∷ [])
  kills : Commands container (codes "kill") (codes "docker" ∷ codes "kill" ∷ container ∷ [])
  starts : Commands container (codes "start") (codes "docker" ∷ codes "start" ∷ container ∷ [])

-- An action that is known, on a container of this cluster.
abbrev pub Safe : Option JsString → Option JsString → List JsString → Type 0
Safe container action cmd =
    (name rest word : JsString) × (container ≡ some name)
    × (action ≡ some word)
    × (name ≡ codes "wormdb-" ++ rest)
    × Commands name word cmd

some-or_empty : (o : Option JsString) → is_empty o ≡ false → o ≡ some (or_empty o)
some-or_empty none h = absurd (cc)
some-or_empty (some s) h = refl

docker_command-Commands :
    (name word : JsString) → is_action word ≡ true → Commands name word (docker_command word name)
unfolding is_action docker_command
docker_command-Commands name word h = elim (Bool-cases (same_text word (codes "stop"))) [
  | inl e ↦ rw e (
      subst
        (λ w. Commands name w (codes "docker" ∷ codes "stop" ∷ codes "-t" ∷ codes "10" ∷ name ∷ []))
        (sym (same_text_eq word (codes "stop") e)) stops)
  | inr e ↦ elim (Bool-cases (same_text word (codes "kill"))) [
    | inl f ↦
        rw (e, f)
          (subst (λ w. Commands name w (codes "docker" ∷ codes "kill" ∷ name ∷ []))
            (sym (same_text_eq word (codes "kill") f)) kills)
    | inr f ↦
        let g : same_text word (codes "start") ≡ true = rw (e, f) at h in
        rw (e, f)
          (subst (λ w. Commands name w (codes "docker" ∷ codes "start" ∷ name ∷ []))
            (sym (same_text_eq word (codes "start") g)) starts)
  ]
]

-- A command that the WebSocket runs starts, stops or kills a container whose name starts with
-- `wormdb-`. It is the command that the HTTP call runs if no admin token is set; if one is, the HTTP
-- call without the header is refused with 401, where the WebSocket still runs it.
pub handle_docker_action_unguarded :
    (container action : Option JsString) (cmd : List JsString) (c : ℕ) (token : JsString)
    → handle_docker_action container action ≡ some cmd
    → Safe container action cmd
      × ((header : Option JsString) → docker_container none header container action ≡ runs cmd)
      × (docker_container (some (c ∷ token)) none container action ≡ refuses 401)
unfolding handle_docker_action docker_container has_admin_access
handle_docker_action_unguarded container action cmd c token h =
    elim (Bool-cases (is_empty container || is_empty action)) [
      | inl e ↦ absurd (cc (rw e at h))
      | inr e ↦ elim (Bool-cases (is_action (or_empty action))) [
        | inr f ↦ absurd (cc (rw (e, f) at h))
        | inl f ↦ elim (Bool-cases (starts_with (or_empty container) (codes "wormdb-"))) [
          | inr g ↦ absurd (cc (rw (e, f, g) at h))
          | inl g ↦
              let ran : some (docker_command (or_empty action) (or_empty container)) ≡ some cmd =
                rw (e, f, g) at h in
              let (rest, split) = starts_with_prefix (or_empty container) (codes "wormdb-") g in
              let some_container : is_empty container ≡ false = ground arith in
              let some_action : is_empty action ≡ false = ground arith in
              (
                (
                  or_empty container,
                  rest,
                  or_empty action,
                  some-or_empty container some_container,
                  some-or_empty action some_action,
                  split,
                  subst (Commands (or_empty container) (or_empty action)) (some-inj ran)
                      (docker_command-Commands (or_empty container) (or_empty action) f),
                ),
                λ header. rw (e, f, g) (ap runs (some-inj ran)),
                refl,
              )
        ]
      ]
    ]

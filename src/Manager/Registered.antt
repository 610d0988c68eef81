-- ===== src/Manager/Registered.antt =====
-- What holds of every server in the table of manager.c, whatever requests come in.
use outline_multiport_server.Base.{
  ◌≤◌, ◌≡◌, refl, ap, subst, Bool, true, false, Option, none, some, List, [], ◌∷◌, Bytes, codes,
  length, length-take, str_eq, decimal, arith, Option-cases, inl, inr, if◌then◌else◌,
}
use outline_multiport_server.Manager.{
  Server, blank_server, ManagerLibrary, JsonField, json_string, json_integer, json_boolean,
  json_other, JsonValue, json_object, not_object, as_uint64,
}
use outline_multiport_server.Manager.Requests.{
  set_port, set_member, set_members, with_string, with_boolean, get_server, parsed,
}

-- The buffers of `struct server` hold the names.
pub record IsServer (s : Server) : Type 0 where
  pub port : length s.port ≤ 7
  pub password : length s.password ≤ 127
  pub locked_ip : length s.locked_ip ≤ 45

IfServer : Option Server → Type 0
IfServer none = Unit
IfServer (some s) = IsServer s

if_both : (b : Bool) (x y : Option Server) → IfServer x → IfServer y → IfServer (if b then x else y)
if_both true x y hx hy = hx
if_both false x y hx hy = hy

set_port-IsServer : (v : JsonField) (s : Server) → IsServer s → IsServer (set_port v s)
set_port-IsServer (json_string t) s h = record {
  port = omega (arith, length-take 7 t);
  password = h.password;
  locked_ip = h.locked_ip;
}
set_port-IsServer (json_integer i) s h = record {
  port = omega (arith, length-take 7 (decimal (as_uint64 i)));
  password = h.password;
  locked_ip = h.locked_ip;
}
set_port-IsServer (json_boolean b) s h = h
set_port-IsServer json_other s h = h

with_string-IsServer :
    (v : JsonField) (f : Bytes → Server) (s : Server)
    → IsServer s
    → ((t : Bytes) → IsServer (f t))
    → IsServer (with_string v f s)
with_string-IsServer (json_string t) f s h hf = hf t
with_string-IsServer (json_integer i) f s h hf = h
with_string-IsServer (json_boolean b) f s h hf = h
with_string-IsServer json_other f s h hf = h

with_boolean-IsServer :
    (v : JsonField) (f : Bool → Server) (s : Server)
    → IsServer s
    → ((b : Bool) → IsServer (f b))
    → IsServer (with_boolean v f s)
with_boolean-IsServer (json_boolean b) f s h hf = hf b
with_boolean-IsServer (json_integer i) f s h hf = h
with_boolean-IsServer (json_string t) f s h hf = h
with_boolean-IsServer json_other f s h hf = h

-- A change that leaves the three names.
same_names :
    (s s' : Server)
    → s'.port ≡ s.port
    → s'.password ≡ s.password
    → s'.locked_ip ≡ s.locked_ip
    → IsServer s
    → IsServer s'
same_names s s' hp hw hl h = record {
  port = let size = ap length hp in let small = h.port in omega arith;
  password = let size = ap length hw in let small = h.password in omega arith;
  locked_ip = let size = ap length hl in let small = h.locked_ip in omega arith;
}

set_member-IfServer :
    (name : Bytes) (v : JsonField) (s : Server) → IsServer s → IfServer (set_member name v s)
unfolding set_member IfServer
set_member-IfServer name v s h =
    if_both (str_eq name (codes "server_port")) _ _ (set_port-IsServer v s h) (
      if_both (str_eq name (codes "password")) _ _
        (with_string-IsServer v _ s h (λ t. record {
          port = h.port;
          password = omega (arith, length-take 127 t);
          locked_ip = h.locked_ip;
        }))
        (if_both (str_eq name (codes "method")) _ _
          (with_string-IsServer v _ s h (λ t. same_names s _ refl refl refl h))
          (if_both (str_eq name (codes "fast_open")) _ _
            (with_boolean-IsServer v _ s h (λ b. same_names s _ refl refl refl h))
            (if_both (str_eq name (codes "no_delay")) _ _
              (with_boolean-IsServer v _ s h (λ b. same_names s _ refl refl refl h))
              (if_both (str_eq name (codes "plugin")) _ _
                (with_string-IsServer v _ s h (λ t. same_names s _ refl refl refl h))
                (if_both (str_eq name (codes "plugin_opts")) _ _
                  (with_string-IsServer v _ s h (λ t. same_names s _ refl refl refl h))
                  (if_both (str_eq name (codes "mode")) _ _
                    (with_string-IsServer v _ s h (λ t. same_names s _ refl refl refl h)) tt)))))))

set_members-IsServer :
    (members : List (Bytes × JsonField)) (s : Server)
    → IsServer s
    → IsServer (set_members members s)
unfolding set_members IfServer
set_members-IsServer [] s h = h
set_members-IsServer ((name, v) ∷ members) s h = elim (Option-cases (set_member name v s)) [
  | inl e ↦ rw (e, set_members) h
  | inr (s', e) ↦
      rw (e, set_members)
        (set_members-IsServer members s' (subst IfServer e (set_member-IfServer name v s h)))
]

-- What `get_server` reads fits its buffers.
pub get_server-IsServer :
    (M : ManagerLibrary) (buf : Bytes) (s : Server) → get_server M buf ≡ some s → IsServer s
unfolding get_server IfServer
get_server-IsServer M buf s read = subst IfServer read (go (parsed M buf) refl)
  where
    blank : IsServer blank_server
    blank = record { port = omega arith; password = omega arith; locked_ip = omega arith }

    go : (v : Option JsonValue) → parsed M buf ≡ v → IfServer (get_server M buf)
    go none e = rw (e, get_server) tt
    go (some (json_object members)) e =
        rw (e, get_server) (set_members-IsServer members blank_server blank)
    go (some not_object) e = rw (e, get_server) blank

-- ===== src/Manager/Listing.antt =====
-- The messages of manager.c that answer `list` and `ping`.
use outline_multiport_server.Base.{
  ◌-◌, max, ◌<◌, ◌≡◌, refl, sym, ap, ◌∙◌, Bool, true, false, List, [], ◌∷◌, ◌++◌, Bytes, codes,
  length, take, map, ltb, arith, if◌then◌else◌, append_assoc, append-nil, length-append,
  take_append_length, append_eq-length, decimal,
}
use outline_multiport_server.Manager.{Server, ManagerCtx}
use outline_multiport_server.Manager.Replies.{
  list_entry, list_limit, list_loop, close_list, list_messages, ping_entry,
}
use outline_multiport_server.Manager.Servers.{or_else}

-- One server as an element of the JSON array.
abbrev pub list_element : ManagerCtx → Server → Bytes
list_element m s =
    codes "\n\t{\"server_port\":\""
    ++ (s.port
        ++ (codes "\",\"password\":\""
            ++ (s.password
                ++ (codes "\",\"method\":\"" ++ (or_else s.method m.method ++ codes "\"}")))))

-- The traffic of one server as a member of the JSON object.
abbrev pub ping_member : Server → Bytes
ping_member s = codes "\"" ++ (s.port ++ (codes "\":" ++ decimal s.traffic))

-- Texts with commas between them.
abbrev pub joined : List Bytes → Bytes
joined [] = []
joined (x ∷ []) = x
joined (x ∷ y ∷ xs) = x ++ (codes "," ++ joined (y ∷ xs))

-- Texts one behind the other.
abbrev pub concat : List Bytes → Bytes
concat [] = []
concat (x ∷ xs) = x ++ concat xs

concat-append : (xs : List Bytes) (x : Bytes) → concat (xs ++ (x ∷ [])) ≡ concat xs ++ x
concat-append [] x = append-nil x
concat-append (y ∷ xs) x =
    ap (λ t. y ++ t) (concat-append xs x) ∙ sym (append_assoc y (concat xs) x)

abbrev pub with_comma : Bytes → Bytes
with_comma x = x ++ codes ","

-- With a comma behind each, there is one too many at the end.
pub concat-commas :
    (x : Bytes) (xs : List Bytes) → concat (map with_comma (x ∷ xs)) ≡ joined (x ∷ xs) ++ codes ","
concat-commas x [] = append-nil (x ++ codes ",")
concat-commas x (y ∷ xs) =
    let ih = concat-commas y xs in
    append_assoc x (codes ",") (concat (map with_comma (y ∷ xs)))
    ∙ ap (λ t. x ++ (codes "," ++ t)) ih
    ∙ sym (append_assoc x (codes "," ++ joined (y ∷ xs)) (codes ","))

pub list_entry-element :
    (m : ManagerCtx) (s : Server) → list_entry m s ≡ with_comma (list_element m s)
unfolding list_entry
list_entry-element m s = simp (append_assoc)

pub ping_entry-member : (s : Server) → ping_entry s ≡ with_comma (ping_member s)
unfolding ping_entry
ping_entry-member s = simp (append_assoc)

-- Sending the buffer before an entry or not, the same bytes come out in the end.
flush :
    (full : Bool) (buf e rest : Bytes) (sent : List Bytes)
    → concat (if full then sent ++ (buf ∷ []) else sent)
        ++ (((if full then [] else buf) ++ e) ++ rest)
      ≡ concat sent ++ (buf ++ (e ++ rest))
flush true buf e rest sent =
    ap (λ t. t ++ (e ++ rest)) (concat-append sent buf) ∙ append_assoc (concat sent) buf (e ++ rest)
flush false buf e rest sent = ap (λ t. concat sent ++ t) (append_assoc buf e rest)

list_loop-concat :
    (m : ManagerCtx) (servers : List Server) (buf : Bytes) (sent : List Bytes)
    → let r = list_loop m servers buf sent in
      concat r.1 ++ r.0
      ≡ concat sent ++ (buf ++ concat (map with_comma (map (list_element m) servers)))
unfolding list_loop
list_loop-concat m [] buf sent = ap (λ t. concat sent ++ t) (sym (append-nil buf))
list_loop-concat m (s ∷ servers) buf sent =
    let full = ltb (list_limit m s) (length buf) in
    let rest = concat (map with_comma (map (list_element m) servers)) in
    list_loop-concat m servers _ _
    ∙ flush full buf (list_entry m s) rest sent
    ∙ ap (λ e. concat sent ++ (buf ++ (e ++ rest))) (list_entry-element m s)

-- The buffer ends with a comma.
abbrev EndsComma : Bytes → Type 0
EndsComma buf = (front : Bytes) × (0 < length front) × (buf ≡ front ++ codes ",")

EndsComma-entry : (m : ManagerCtx) (s : Server) (buf : Bytes) → EndsComma (buf ++ list_entry m s)
EndsComma-entry m s buf = (
  buf ++ list_element m s,
  omega (arith, length-append buf (list_element m s)),
  ap (λ e. buf ++ e) (list_entry-element m s)
      ∙ sym (append_assoc buf (list_element m s) (codes ",")),
)

list_loop-EndsComma :
    (m : ManagerCtx) (servers : List Server) (buf : Bytes) (sent : List Bytes)
    → EndsComma buf
    → EndsComma (list_loop m servers buf sent).0
unfolding list_loop
list_loop-EndsComma m [] buf sent h = h
list_loop-EndsComma m (s ∷ servers) buf sent h =
    list_loop-EndsComma m servers _ _ (EndsComma-entry m s _)

list_loop_cons-EndsComma :
    (m : ManagerCtx) (s : Server) (servers : List Server) (buf : Bytes) (sent : List Bytes)
    → EndsComma (list_loop m (s ∷ servers) buf sent).0
unfolding list_loop
list_loop_cons-EndsComma m s servers buf sent =
    let full = ltb (list_limit m s) (length buf) in
    list_loop-EndsComma m servers ((if full then [] else buf) ++ list_entry m s)
      (if full then sent ++ (buf ∷ []) else sent) (EndsComma-entry m s (if full then [] else buf))

close_list-EndsComma :
    (front : Bytes) → 0 < length front → close_list (front ++ codes ",") ≡ front ++ codes "\n]"
close_list-EndsComma front h =
    let size = length-append front (codes ",") in
    let cut : max (length (front ++ codes ",") - 1) 1 ≡ length front = omega arith in
    ap (λ n. take n (front ++ codes ",") ++ codes "\n]") cut
    ∙ ap (λ t. t ++ codes "\n]") (take_append_length (length front) front (codes ",") refl)

-- The messages that answer `list`, joined, are a bracket, the texts of the servers of the table in the
-- order of its iterator with a comma between two, and a bracket, however many messages it takes: no
-- server is lost, cut or repeated. The names stand in the texts as they are, without escapes.
pub list_messages-joined :
    (m : ManagerCtx) (servers : List Server)
    → concat (list_messages m servers)
      ≡ codes "[" ++ (joined (map (list_element m) servers) ++ codes "\n]")
unfolding list_messages list_loop
list_messages-joined m [] = refl
list_messages-joined m (s ∷ servers) =
    let r = list_loop m (s ∷ servers) (codes "[") [] in
    let texts = joined (map (list_element m) (s ∷ servers)) in
    let (front, some_text, ends) = list_loop_cons-EndsComma m s servers (codes "[") [] in
    let whole = list_loop-concat m (s ∷ servers) (codes "[") [] in
    let commas = concat-commas (list_element m s) (map (list_element m) servers) in
    let same =
      append_assoc (concat r.1) front (codes ",")
      ∙ ap (λ t. concat r.1 ++ t) (sym ends)
      ∙ whole
      ∙ ap (λ t. codes "[" ++ t) commas in
    let (front_same, comma) =
      append_eq-length (concat r.1 ++ front) (codes "[" ++ texts) (codes ",") (codes ",") same
        refl in
    concat-append r.1 (close_list r.0)
    ∙ ap (λ t. concat r.1 ++ close_list t) ends
    ∙ ap (λ t. concat r.1 ++ t) (close_list-EndsComma front some_text)
    ∙ sym (append_assoc (concat r.1) front (codes "\n]"))
    ∙ ap (λ t. t ++ codes "\n]") front_same
    ∙ append_assoc (codes "[") texts (codes "\n]")

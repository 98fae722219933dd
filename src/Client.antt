-- ===== src/Client.antt =====
-- client.go: which client program a request comes from. `url.Parse(raw).Host` is the parameter
-- `url_host` (`none` for its error).
pub mod Options
pub mod Codes
pub mod Resolve
pub mod Names
mod Tests
use middle.Prelude.{
  ℕ, Bool, true, false, ◌&&◌, ◌||◌, not, List, [], ◌∷◌, ◌++◌, Option, none, some, leb, length,
  if◌then◌else◌, eqb,
}
use middle.Text.{
  Text, runes, is_empty, ◌==◌, trim_space, to_lower, contains, cut, split, before_first,
}

-- A Go map from strings to strings, by its entries.
abbrev pub Table : Type 0
Table = List (Text × Text)

-- `m[k] = v`
unfoldable pub put : Text → Text → Table → Table
put k v [] = (k, v) ∷ []
put k v ((k', v') ∷ m) = let rest = put k v m in if k' == k then (k, v) ∷ m else (k', v') ∷ rest

-- `v, ok := m[k]`
unfoldable pub lookup_name : Table → Text → Option Text
lookup_name [] k = none
lookup_name ((k', v) ∷ m) k = if k' == k then some v else lookup_name m k

-- `m[k]`
abbrev pub text_of : Option Text → Text
text_of none = []
text_of (some v) = v

abbrev pub put_all : Table → Table → Table
put_all [] m = m
put_all ((k, v) ∷ entries) m = put_all entries (put k v m)

abbrev pub default_client_names : Table
default_client_names =
    (runes "x2", runes "大厅小程序")
    ∷ (runes "x9", runes "后台管理")
    ∷ (runes "x6", runes "点餐端")
    ∷ (runes "x5", runes "出餐管理端")
    ∷ []

abbrev pub default_client_host_labels : Table
default_client_host_labels =
    (runes "admin", runes "x9")
    ∷ (runes "super", runes "x9")
    ∷ (runes "mch", runes "x9")
    ∷ (runes "menu", runes "x6")
    ∷ (runes "pad", runes "x5")
    ∷ (runes "mini", runes "x2")
    ∷ []

-- `clientNames` and `clientHosts`.
pub record Clients : Type 0 where
  pub names : Table
  pub hosts : Table

abbrev pub within : ℕ → ℕ → ℕ → Bool
within lo hi c = leb lo c && leb c hi

-- [a-z0-9]
abbrev pub starts_code : ℕ → Bool
starts_code c = within b'a' b'z' c || within b'0' b'9' c

-- [a-z0-9_.-]
abbrev pub in_code : ℕ → Bool
in_code c = starts_code c || eqb c b'_' || eqb c b'.' || eqb c b'-'

unfoldable pub all_runes : (ℕ → Bool) → Text → Bool
all_runes p [] = true
all_runes p (c ∷ s) = p c && all_runes p s

-- `clientCodeRe.MatchString`
unfoldable pub matches_code : Text → Bool
matches_code [] = false
matches_code (c ∷ s) = starts_code c && all_runes in_code s && leb (length s) 31

unfoldable pub normalize_client_code : Text → Text
normalize_client_code code = let c = to_lower (trim_space code) in if matches_code c then c else []

-- [0-9A-Za-z]
abbrev pub starts_version : ℕ → Bool
starts_version c = starts_code c || within b'A' b'Z' c

-- [0-9A-Za-z._+-]
abbrev pub in_version : ℕ → Bool
in_version c = starts_version c || eqb c b'_' || eqb c b'.' || eqb c b'+' || eqb c b'-'

-- `clientVersionRe.MatchString`
unfoldable pub matches_version : Text → Bool
matches_version [] = false
matches_version (c ∷ s) = starts_version c && all_runes in_version s && leb (length s) 31

-- The prefix "v" or "V" before a digit is cut.
abbrev pub without_v : Text → Text
without_v (v ∷ d ∷ s) =
    if (eqb v b'v' || eqb v b'V') && within b'0' b'9' d then d ∷ s else v ∷ d ∷ s
without_v s = s

unfoldable pub normalize_client_version : Text → Text
normalize_client_version v =
    let bare = without_v (trim_space v) in if matches_version bare then bare else []

abbrev pub pair_of : Option (Text × Text) → Option (Text × Text)
pair_of none = none
pair_of (some (k, v)) =
    if is_empty (trim_space k) || is_empty (trim_space v)
    then none
    else some (trim_space k, trim_space v)

abbrev pub put_pair : Option (Text × Text) → Table → Table
put_pair none m = m
put_pair (some (k, v)) m = put k v m

-- The loop of `parsePairs` over its parts.
unfoldable pub add_pairs : List Text → Table → Table
add_pairs [] m = m
add_pairs (part ∷ parts) m = add_pairs parts (put_pair (pair_of (cut b'=' part)) m)

unfoldable pub parse_pairs : Text → Table
parse_pairs raw = add_pairs (split b',' raw) []

unfoldable pub add_names : Table → Table → Table
add_names [] m = m
add_names ((code, name) ∷ pairs) m =
    let c = normalize_client_code code in
    add_names pairs (if is_empty c || is_empty name then m else put c name m)

unfoldable pub add_hosts : Table → Table → Table
add_hosts [] m = m
add_hosts ((host, code) ∷ pairs) m =
    let c = normalize_client_code code in
    add_hosts pairs (if is_empty c then m else put (to_lower host) c m)

-- `initClients`, with the variables AUDIT_CLIENTS and AUDIT_CLIENT_HOSTS of the environment.
unfoldable pub init_clients : Text → Text → Clients
init_clients audit_clients audit_client_hosts = record {
  names = add_names (parse_pairs audit_clients) (put_all default_client_names []);
  hosts = add_hosts (parse_pairs audit_client_hosts) (put_all default_client_host_labels []);
}

unfoldable pub register_client : Text → Text → Clients → Clients
register_client code name st =
    let c = normalize_client_code code in
    let n = trim_space name in
    if is_empty c || is_empty n then st else record st { names = put c n st.names }

abbrev pub name_or : Option Text → Text → Text
name_or none code = code
name_or (some name) code = name

unfoldable pub client_name : Clients → Text → Text
client_name st code =
    let c = trim_space code in
    if is_empty c then runes "未知" else name_or (lookup_name st.names (to_lower c)) c

-- `host[:i]` at the first colon, in lower case.
abbrev pub host_name : Text → Text
host_name host = to_lower (before_first b':' host)

abbrev pub code_of_host : Clients → Option Text → Text
code_of_host st none = []
code_of_host st (some host) =
    if contains (host_name host) (runes ".tenant.")
    then text_of (lookup_name st.hosts (runes "admin"))
    else text_of (lookup_name st.hosts (before_first b'.' (host_name host)))

unfoldable pub client_from_host : (Text → Option Text) → Clients → Text → Text
client_from_host url_host st raw =
    let r = trim_space raw in
    if is_empty r
    then []
    else code_of_host st (if contains r (runes "://") then url_host r else some r)

-- What a request says of its client; `mini_program` is `isWeChatMiniProgramUA` of its user agent.
pub record ClientRequest : Type 0 where
  pub client_id : Text
  pub client_version : Text
  pub wechat_app_id : Text
  pub mini_program : Bool
  pub origin : Text
  pub referer : Text
  pub host : Text

unfoldable pub first_host : (Text → Option Text) → Clients → List Text → Text
first_host url_host st [] = []
first_host url_host st (h ∷ rest) =
    let later = first_host url_host st rest in
    let code = client_from_host url_host st h in if is_empty code then later else code

-- `ResolveClient`: the code and the version.
unfoldable pub resolve_client : (Text → Option Text) → Clients → ClientRequest → Text × Text
resolve_client url_host st r =
    let version = normalize_client_version r.client_version in
    if not (is_empty (normalize_client_code r.client_id))
    then (normalize_client_code r.client_id, version)
    else if not (is_empty r.wechat_app_id) || r.mini_program
    then (runes "x2", version)
    else (first_host url_host st (r.origin ∷ r.referer ∷ r.host ∷ []), version)

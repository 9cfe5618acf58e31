-- ===== src/Paths.antt =====
-- core/pathmanager.c: the paths of the core's files, each made once and kept. getenv's answers are an
-- argument; malloc is taken to succeed.
pub mod Laws
use tapi2p.Base.{
  ℕ, ◌+◌, ◌-◌, Option, none, some, List, [], ◌∷◌, ◌++◌, Bool, ltb, leb, ◌==◌, if◌then◌else◌,
  get_elem?, length, codes,
}

-- PATH_MAX
abbrev pub path_max : ℕ
path_max = 4096

-- The environment variables TAPI2P_ROOT and HOME.
pub record Env : Type 0 where
  pub root : Option (List ℕ)
  pub home : Option (List ℕ)

-- A path, NULL, or a fault: NULL or an empty string read through, or a root of PATH_MAX bytes, which
-- is copied without its end.
pub data Found : Type 0 where
  path : List ℕ → Found
  null : Found
  fault : Found

-- basepath_str, configpath_str, …
pub record Paths : Type 0 where
  pub base : Option (List ℕ)
  pub config : Option (List ℕ)
  pub metadata : Option (List ℕ)
  pub key : Option (List ℕ)
  pub selfkey : Option (List ℕ)
  pub selfkey_pub : Option (List ℕ)
  pub socket : Option (List ℕ)

abbrev pub no_paths : Paths
no_paths = record {
  base = none;
  config = none;
  metadata = none;
  key = none;
  selfkey = none;
  selfkey_pub = none;
  socket = none;
}

-- The root with a separator behind it, unless it ends in one.
abbrev pub separated : List ℕ → Option ℕ → Found
separated root none = fault
separated root (some c) = if c == b'/' then path root else path (root ++ (b'/' ∷ []))

abbrev pub rooted : List ℕ → Found
rooted root =
    if ltb (length root) path_max
    then separated root (if length root == 0 then none else get_elem? root (length root - 1))
    else fault

abbrev pub homed : Option (List ℕ) → Found
homed none = null
homed (some home) =
    if ltb path_max (length (codes "/.config/tapi2p/") + length home + 1)
    then null
    else path (home ++ codes "/.config/tapi2p/")

unfoldable pub from_env : Env → Found
from_env env = elim env.root [ none ↦ homed env.home | some root ↦ rooted root ]

-- What is kept of a path that was made.
abbrev pub kept : Found → Option (List ℕ)
kept (path p) = some p
kept null = none
kept fault = none

unfoldable pub basepath : Env → Paths → Found × Paths
basepath env p = elim p.base [
  | none ↦ (from_env env, record p { base = kept (from_env env) })
  | some b ↦ (path b, p)
]

-- getpath: `to` is what stood at the pointer, and the second result what stands there after.
unfoldable pub getpath : List ℕ → List ℕ → Option (List ℕ) → Found × Option (List ℕ)
getpath base add (some p) = (path p, some p)
getpath base add none =
    if ltb path_max (length add + length base + 1)
    then (null, none)
    else (path (base ++ add), some (base ++ add))

-- getpath below a path that may be NULL; getpath does not look at the base of a path it has.
unfoldable pub getpath_below : Found → List ℕ → Option (List ℕ) → Found × Option (List ℕ)
unfolding getpath
getpath_below (path b) add to = getpath b add to
getpath_below null add none = (fault, none)
getpath_below null add (some p) = (path p, some p)
getpath_below fault add to = (fault, to)

unfoldable pub configpath : Env → Paths → Found × Paths
unfolding basepath getpath_below
configpath env p =
    let (b, q) = basepath env p in
    let (r, to) = getpath_below b (codes "config") q.config in (r, record q { config = to })

unfoldable pub metadatapath : Env → Paths → Found × Paths
unfolding basepath getpath_below
metadatapath env p =
    let (b, q) = basepath env p in
    let (r, to) = getpath_below b (codes "metadata/") q.metadata in (r, record q { metadata = to })

unfoldable pub keypath : Env → Paths → Found × Paths
unfolding basepath getpath_below
keypath env p =
    let (b, q) = basepath env p in
    let (r, to) = getpath_below b (codes "keys/") q.key in (r, record q { key = to })

unfoldable pub selfkeypath : Env → Paths → Found × Paths
unfolding keypath
selfkeypath env p =
    let (b, q) = keypath env p in
    let (r, to) = getpath_below b (codes "self") q.selfkey in (r, record q { selfkey = to })

unfoldable pub selfkeypath_pub : Env → Paths → Found × Paths
unfolding keypath
selfkeypath_pub env p =
    let (b, q) = keypath env p in
    let (r, to) = getpath_below b (codes "self.pub") q.selfkey_pub in
    (r, record q { selfkey_pub = to })

unfoldable pub socketpath : Env → Paths → Found × Paths
unfolding basepath getpath_below
socketpath env p =
    let (b, q) = basepath env p in
    let (r, to) = getpath_below b (codes "t2p_core") q.socket in (r, record q { socket = to })

-- ===== src/Paths/Laws.antt =====
-- The paths of the core's files below its root.
use tapi2p.Base.{ℕ, ◌+◌, ◌≤◌, ◌≡◌, List, ◌++◌, length, length-append, codes, arith}
use tapi2p.Paths.{
  path_max, Env, path, no_paths, from_env, configpath, metadatapath, keypath, selfkeypath,
  selfkeypath_pub, socketpath,
}

-- Below a root that leaves room for the longest name, each path is the root with its name behind
-- it, and a second call returns it from the store, which it leaves as it is.
pub paths_below_root :
    (env : Env) (root : List ℕ)
    → from_env env ≡ path root
    → length root + 14 ≤ path_max
    → ((configpath env no_paths).0 ≡ path (root ++ codes "config"))
      × ((metadatapath env no_paths).0 ≡ path (root ++ codes "metadata/"))
      × ((keypath env no_paths).0 ≡ path (root ++ codes "keys/"))
      × ((selfkeypath env no_paths).0 ≡ path ((root ++ codes "keys/") ++ codes "self"))
      × ((selfkeypath_pub env no_paths).0 ≡ path ((root ++ codes "keys/") ++ codes "self.pub"))
      × ((socketpath env no_paths).0 ≡ path (root ++ codes "t2p_core"))
      × (keypath env (selfkeypath env no_paths).1
          ≡ ((keypath env no_paths).0, (selfkeypath env no_paths).1))
      × (selfkeypath env (selfkeypath env no_paths).1 ≡ selfkeypath env no_paths)
unfolding configpath metadatapath selfkeypath selfkeypath_pub socketpath
paths_below_root env root rooted short = (
  rw rooted (ground arith),
  rw rooted (ground arith),
  rw rooted (ground arith),
  rw rooted (ground (arith, length-append root (codes "keys/"))),
  rw rooted (ground (arith, length-append root (codes "keys/"))),
  rw rooted (ground arith),
  rw rooted (ground (arith, length-append root (codes "keys/"))),
  rw rooted (ground (arith, length-append root (codes "keys/"))),
)

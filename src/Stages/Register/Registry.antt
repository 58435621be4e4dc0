-- ===== src/Stages/Register/Registry.antt =====
-- The clusters of the config: what registering adds, and what its rollback removes.
use easyshift.Base.{◌≡◌, refl, false, List, [], ◌∷◌, ◌++◌, arith, eq_refl}
use easyshift.Config.Types.{ClusterConfig, Pointer}
use easyshift.Config.Constants.{state_creating}
use easyshift.Config.Memory.{Memory, Disk, assign, save}
use easyshift.Stages.Register.{is_registered, unregister, register, deregister}

-- Two heaps give their clusters the same names.
abbrev SameNames : (Pointer → ClusterConfig) → (Pointer → ClusterConfig) → Type 0
SameNames heap heap' = (q : Pointer) → (heap' q).name ≡ (heap q).name

unregister-append :
    (heap heap' : Pointer → ClusterConfig) (qs : List Pointer) (p : Pointer)
    → SameNames heap heap'
    → is_registered heap qs (heap p).name ≡ false
    → unregister heap' (qs ++ (p ∷ [])) (heap' p).name ≡ qs
unfolding unregister is_registered
unregister-append heap heap' [] p same free = ground (arith, eq_refl (heap' p).name)
unregister-append heap heap' (q ∷ qs) p same free =
    ground (arith, unregister-append heap heap' qs p same, same q, same p)

-- Registering a cluster whose name is new and then rolling that back leaves the list of clusters
-- as it was, whether or not the config could be saved.
pub deregister-register :
    {W : Type 0} (disk : Disk W) (p : Pointer) (m : Memory W)
    → is_registered m.heap m.config.clusters (m.heap p).name ≡ false
    → let m' = (register disk p m).0 in
      (m'.config.clusters ≡ m.config.clusters ++ (p ∷ []))
      × ((deregister disk p m').0.config.clusters ≡ m.config.clusters)
unfolding register deregister save
deregister-register disk p m free =
    let heap' = assign m.heap p (record (m.heap p) { state = state_creating }) in
    let same : SameNames m.heap heap' = λ q. ground arith in
    rw free (refl, unregister-append m.heap heap' m.config.clusters p same free)

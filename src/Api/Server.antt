-- ===== src/Api/Server.antt =====
-- Runs of a program against a server, and what the Kubernetes API documents of the objects that
-- it stores.
use argocd_cluster_registrar.Common.{◌≡◌, refl, [], Bytes, true, copy}
use argocd_cluster_registrar.Kube.{Secret}
use argocd_cluster_registrar.Api.{
  Op, Answer, found, created, get_secret, create_secret, update_secret, Prog, ret, call, ◌>>=◌, run,
}

pub run-bind :
    {W A B : Type 0} (handle : (o : Op) → W → Answer o × W) (m : Prog A) (f : A → Prog B) (w : W)
    → run handle (m >>= f) w ≡ run handle (f (run handle m w).0) (run handle m w).1
unfolding run ◌>>=◌
run-bind handle (ret a) f w = refl
run-bind handle (call o k) f w = run-bind handle (k (handle o w).0) f (handle o w).1

-- What comes back for an object that was written: `stringData` is merged into `data`.
pub record IsStored (written stored : Secret) : Type 0 where
  pub labels : stored.labels ≡ written.labels
  pub annotations : stored.annotations ≡ written.annotations
  pub contents : stored.data' ≡ copy written.data' written.string_data

-- The next read of an object gives what was stored of the one that was written.
abbrev pub Rereads : {W : Type 0} → ((o : Op) → W → Answer o × W) → Bytes → Secret → W → Type 0
Rereads handle namespace written w =
    (stored : Secret) × ((handle (get_secret namespace written.name) w).0 ≡ found stored)
    × IsStored written stored

-- A server that gives back what it accepted. A read changes nothing, gives an object of the name
-- that was asked for, and never gives `stringData`.
pub record IsServer {W : Type 0} (handle : (o : Op) → W → Answer o × W) : Type 0 where
  pub pure : (namespace name : Bytes) (w : W) → (handle (get_secret namespace name) w).1 ≡ w
  pub named :
      (namespace name : Bytes) (w : W) (s : Secret)
      → (handle (get_secret namespace name) w).0 ≡ found s
      → s.name ≡ name
  pub plain :
      (namespace name : Bytes) (w : W) (s : Secret)
      → (handle (get_secret namespace name) w).0 ≡ found s
      → s.string_data ≡ []
  pub created :
      (namespace : Bytes) (s : Secret) (w : W)
      → (handle (create_secret namespace s) w).0 ≡ created
      → Rereads handle namespace s (handle (create_secret namespace s) w).1
  pub updated :
      (namespace : Bytes) (s : Secret) (w : W)
      → (handle (update_secret namespace s) w).0 ≡ true
      → Rereads handle namespace s (handle (update_secret namespace s) w).1

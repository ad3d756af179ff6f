-- ===== src/Apply/Lasting.antt =====
-- What the history has shown of a verdict of `apply` stays shown.
use argocd_cluster_registrar.Api.{Reason}
use argocd_cluster_registrar.Api.Safe.{earlier, Persists}
use argocd_cluster_registrar.Kube.{Secret}
use argocd_cluster_registrar.Config.{Config}
use argocd_cluster_registrar.Registrar.{Child}
use argocd_cluster_registrar.Apply.Outcomes.{
  Keeps, pinned, unsourced, sourced, Refused, foreign, held, stripped, younger, raced, taken,
  Registered, new, renewed, unchanged, dry,
}

pub Registered-Persists : (cfg : Config) (c : Child) → Persists (Registered cfg c)
Registered-Persists cfg c e h (new a) = new (earlier a)
Registered-Persists cfg c e h (renewed s a b) = renewed s (earlier a) (earlier b)
Registered-Persists cfg c e h (unchanged s a same) = unchanged s (earlier a) same
Registered-Persists cfg c e h (dry d) = dry d

module _ (cfg : Config) (c : Child) where
  Keeps-Persists : (s : Secret) → Persists (λ h. Keeps cfg c h s)
  Keeps-Persists s e h (pinned p) = pinned p
  Keeps-Persists s e h (unsourced u) = unsourced u
  Keeps-Persists s e h (sourced answer saw other) = sourced answer (earlier saw) other

  pub Refused-Persists : (reason : Reason) → Persists (λ h. Refused cfg c h reason)
  Refused-Persists reason e h (foreign s a b) = foreign s (earlier a) b
  Refused-Persists reason e h (held s a b d) = held s (earlier a) b d
  Refused-Persists reason e h (stripped s a b d) = stripped s (earlier a) b d
  Refused-Persists reason e h (younger items a b d) = younger items (earlier a) b d
  Refused-Persists reason e h (raced a) = raced (earlier a)
  Refused-Persists reason e h (taken items s a i b k) =
      taken items s (earlier a) i b (Keeps-Persists s e h k)

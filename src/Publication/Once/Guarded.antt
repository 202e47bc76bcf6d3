-- ===== src/Publication/Once/Guarded.antt =====
-- Writes that an outage may stop before they begin.
use radar_ia.Prelude.{Bool-cases, inl, inr}
use radar_ia.Publication.Exec.{M}
use radar_ia.Publication.Hoare.{Spec, Keeps}
use radar_ia.Publication.World.{World}
use radar_ia.Publication.Outcome.{Options, RecordWrite}
use radar_ia.Publication.Orchestrator.{guarded}

pub guarded-Spec :
    {A : Type 0} {P E : World → Type 0} {Q : A → World → Type 0} (o : Options) (write : RecordWrite)
    (m : M World A)
    → Spec P m Q E
    → ((w : World) → P w → E w)
    → Spec P (guarded o write m) Q E
unfolding guarded
guarded-Spec o write m h stopped = record {
  at = λ w p. elim (Bool-cases (o.outage write w)) [
    | inl out ↦ rw out (stopped w p)
    | inr up ↦ rw up (h.at w p)
  ];
}

pub guarded-Keeps :
    {A : Type 0} (P : World → Type 0) (o : Options) (write : RecordWrite) (m : M World A)
    → Keeps P m
    → Keeps P (guarded o write m)
guarded-Keeps P o write m h = guarded-Spec o write m h (λ w p. p)

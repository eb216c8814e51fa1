-- ===== src/Graph/Gate.antt =====
-- What every run of the graph keeps: nothing is closed and nobody is told before a person decided.
use ai_cybersecurity_soc_ana.Common.{
  All, Bool, List, Option, [], ap, false, if◌then◌else◌, inl, inr, none, refl, some, true, ◌++◌,
  ◌∙◌, ◌∷◌, ◌≡◌, ◌≢◌, ◌⊎◌,
}
use ai_cybersecurity_soc_ana.Graph.Builder.{
  Reaches, Run, Step, after, further, here, next_node, runs, start,
}
use ai_cybersecurity_soc_ana.Graph.Nodes.{
  GraphState, Input, ThreatAssessment, act, alert_priority, enter, gate_arm, last_decision,
  route_after_gate, route_after_threat,
}
use ai_cybersecurity_soc_ana.Graph.History.{
  NodeName, close, cve_research, human_gate, ingest_seed, log_analysis, notify, remediation, report,
  threat_detection, triage,
}
use ai_cybersecurity_soc_ana.Enums.{
  DecisionType, TriagePriority, awaiting_approval, closed, is_benign,
}

abbrev pub IsRedirect : DecisionType → Type 0
IsRedirect d = d ≡ DecisionType.redirect

-- Until the gate lets the run go on, every decision was a redirect, and no alert is pending.
abbrev pub IsOpen : GraphState → Type 0
IsOpen s = All IsRedirect s.human_decisions × (s.pending ≡ [])

-- The alerts that a final decision warrants.
abbrev pub alerts_for : DecisionType → Option ThreatAssessment → List TriagePriority
alerts_for DecisionType.approve none = TriagePriority.high ∷ []
alerts_for DecisionType.approve (some a) = a.triage_priority ∷ []
alerts_for _ a = []

-- Redirects, and then one other decision `d`.
abbrev pub DecidedBy : DecisionType → List DecisionType → Type 0
DecidedBy d ds =
    (redirects : List DecisionType) × (ds ≡ redirects ++ d ∷ [])
    × All IsRedirect redirects
    × (d ≢ DecisionType.redirect)

-- A decision was taken, and the alerts are the ones that it warrants.
abbrev pub IsSettled : GraphState → Type 0
IsSettled s =
    (d : DecisionType) × DecidedBy d s.human_decisions
    × (s.pending ≡ alerts_for d s.threat_assessment)

-- What holds before a node runs.
IsReady : NodeName → GraphState → Type 0
IsReady human_gate s = (s.status ≡ awaiting_approval) × IsOpen s
IsReady notify s =
    (s.status ≡ awaiting_approval)
    × DecidedBy DecisionType.approve s.human_decisions
    × (s.pending ≡ [])
IsReady close s = (s.status ≡ awaiting_approval) × IsSettled s
IsReady _ s = (s.status ≢ closed) × IsOpen s

IsSound : Option NodeName → GraphState → Type 0
unfolding IsReady
IsSound none s = (s.status ≡ closed) × IsSettled s
IsSound (some n) s = IsReady n s

pub last_of_append :
    (ds : List DecisionType) (d : DecisionType) → last_decision (ds ++ d ∷ []) ≡ some d
unfolding last_decision
last_of_append [] d = refl
last_of_append (e ∷ []) d = refl
last_of_append (e ∷ f ∷ ds) d = last_of_append (f ∷ ds) d

All-append_redirect :
    (ds : List DecisionType) → All IsRedirect ds → All IsRedirect (ds ++ DecisionType.redirect ∷ [])
All-append_redirect [] h = (refl, tt)
All-append_redirect (d ∷ ds) h = (h.0, All-append_redirect ds h.1)

-- The gate, by the decision that resumes it.
gate-IsSound :
    (s : GraphState) (d : DecisionType)
    → s.status ≡ awaiting_approval
    → IsOpen s
    → let s' = record s { human_decisions = s.human_decisions ++ d ∷ [] } in
      IsSound (some (gate_arm (some d))) s'
unfolding IsSound gate_arm
gate-IsSound s DecisionType.redirect e h =
    (λ f. absurd (cc), (All-append_redirect s.human_decisions h.0, h.1))
gate-IsSound s DecisionType.approve e h = (e, (s.human_decisions, refl, h.0, λ f. absurd (cc)), h.1)
gate-IsSound s DecisionType.edit e h =
    (e, (DecisionType.edit, (s.human_decisions, refl, h.0, λ f. absurd (cc)), h.1))
gate-IsSound s DecisionType.reject e h =
    (e, (DecisionType.reject, (s.human_decisions, refl, h.0, λ f. absurd (cc)), h.1))

research-IsSound :
    (benign : Bool) (s : GraphState)
    → (s.status ≢ closed) × IsOpen s
    → IsSound (some (if benign then report else cve_research)) s
unfolding IsSound IsReady
research-IsSound true s h = h
research-IsSound false s h = h

alert-warranted :
    (a : Option ThreatAssessment) → alert_priority a ∷ [] ≡ alerts_for DecisionType.approve a
unfolding alert_priority
alert-warranted none = refl
alert-warranted (some a) = refl

act-IsSound :
    (n : NodeName) (i : Input) (s : GraphState)
    → IsReady n s
    → IsSound (next_node n (act n i s)) (act n i s)
unfolding IsSound IsReady next_node act enter route_after_gate route_after_threat alert_priority
act-IsSound ingest_seed i s h = (λ e. absurd (cc), h.1)
act-IsSound log_analysis i s h = h
act-IsSound threat_detection i s h = research-IsSound (is_benign i.assessment.verdict) _ h
act-IsSound cve_research i s h = h
act-IsSound report i s h = h
act-IsSound remediation i s h = h
act-IsSound triage i s h = (refl, h.1)
act-IsSound human_gate i s h =
    rw (last_of_append s.human_decisions i.decision)
      (gate-IsSound (enter human_gate s) i.decision h.0 h.1)
act-IsSound notify i s h = (
  h.0,
  (
    DecisionType.approve,
    h.1,
    ap (λ l. l ++ alert_priority s.threat_assessment ∷ []) h.2
        ∙ alert-warranted s.threat_assessment,
  ),
)
act-IsSound close i s h = (refl, h.1)

Step-IsSound : (r q : Run) → Step r q → IsSound r.at r.state → IsSound q.at q.state
unfolding after IsSound
Step-IsSound r q (runs n i s) h = act-IsSound n i s h

Reaches-IsSound : (r q : Run) → Reaches r q → IsSound r.at r.state → IsSound q.at q.state
Reaches-IsSound r q (here _) h = h
Reaches-IsSound r q (further _ m _ before last) h =
    Step-IsSound m q last (Reaches-IsSound r m before h)

start-IsSound : IsSound start.at start.state
unfolding start IsSound IsReady
start-IsSound = (λ e. absurd (cc), (tt, refl))

-- A run that has ended is closed, by exactly one decision of a person that is not a redirect, which
-- follows redirects only; one alert is pending, at the priority of the assessment, if that decision
-- is an approval, and none otherwise.
pub ended_by_decision :
    (r : Run) → Reaches start r → r.at ≡ none → (r.state.status ≡ closed) × IsSettled r.state
unfolding IsSound
ended_by_decision r path ended =
    let sound = Reaches-IsSound start r path start-IsSound in rw ended at sound

settled-decided :
    (s : GraphState)
    → IsSettled s
    → (d : DecisionType) × DecidedBy d s.human_decisions
      × ((d ≡ DecisionType.approve) ⊎ (s.pending ≡ []))
settled-decided s (DecisionType.approve, decided, p) = (DecisionType.approve, decided, inl refl)
settled-decided s (DecisionType.edit, decided, p) = (DecisionType.edit, decided, inr p)
settled-decided s (DecisionType.reject, decided, p) = (DecisionType.reject, decided, inr p)
settled-decided s (DecisionType.redirect, decided, p) = (DecisionType.redirect, decided, inr p)

-- What a state has done, against a state that has done nothing.
idle-not_acted :
    {A : Type 0} (s : GraphState)
    → (s.status ≡ closed) ⊎ (s.pending ≢ [])
    → s.status ≢ closed
    → s.pending ≡ []
    → A
idle-not_acted s (inl e) h p = absurd (h e)
idle-not_acted s (inr e) h p = absurd (e p)

waiting-not_closed : (s : GraphState) → s.status ≡ awaiting_approval → s.status ≢ closed
waiting-not_closed s e f = absurd (cc)

sound-decided :
    (at : Option NodeName) (s : GraphState)
    → (s.status ≡ closed) ⊎ (s.pending ≢ [])
    → IsSound at s
    → (d : DecisionType) × DecidedBy d s.human_decisions
      × ((d ≡ DecisionType.approve) ⊎ (s.pending ≡ []))
unfolding IsSound IsReady
sound-decided none s acted h = settled-decided s h.1
sound-decided (some close) s acted h = settled-decided s h.1
sound-decided (some notify) s acted h = idle-not_acted s acted (waiting-not_closed s h.0) h.2
sound-decided (some human_gate) s acted h = idle-not_acted s acted (waiting-not_closed s h.0) h.1.1
sound-decided (some ingest_seed) s acted h = idle-not_acted s acted h.0 h.1.1
sound-decided (some log_analysis) s acted h = idle-not_acted s acted h.0 h.1.1
sound-decided (some threat_detection) s acted h = idle-not_acted s acted h.0 h.1.1
sound-decided (some cve_research) s acted h = idle-not_acted s acted h.0 h.1.1
sound-decided (some report) s acted h = idle-not_acted s acted h.0 h.1.1
sound-decided (some remediation) s acted h = idle-not_acted s acted h.0 h.1.1
sound-decided (some triage) s acted h = idle-not_acted s acted h.0 h.1.1

-- Nothing is closed and nobody is told before a person decided: in every state that a run reaches
-- that is closed or has a pending alert, the decisions are redirects and then one other decision,
-- an approval if an alert is pending.
pub nothing_before_decision :
    (r : Run)
    → Reaches start r
    → (r.state.status ≡ closed) ⊎ (r.state.pending ≢ [])
    → (d : DecisionType) × DecidedBy d r.state.human_decisions
      × ((d ≡ DecisionType.approve) ⊎ (r.state.pending ≡ []))
nothing_before_decision r path acted =
    sound-decided r.at r.state acted (Reaches-IsSound start r path start-IsSound)

-- ===== src/Tests.antt =====
-- Runs of the model on concrete values: each theorem with hypotheses at an input where they hold.
mod Worlds
mod StateRuns
mod RacesRuns
mod StaleRuns
mod PumpRuns
mod RateRuns
mod ClientRuns
mod AuthRuns
mod CallRuns
mod BuilderRuns
mod SystemRuns

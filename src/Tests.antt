-- ===== src/Tests.antt =====
-- Runs of the model at concrete inputs, and each theorem that has hypotheses at an input that meets
-- them.
mod Configs
mod Services
mod Consoles
mod Starts
mod Lamps
mod Pages
mod Requests
mod Rounds
mod Systems

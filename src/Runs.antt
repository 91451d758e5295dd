-- ===== src/Runs.antt =====
-- Concrete runs: the theorems at concrete systems, files and vectors.
mod Systems
mod Formats
mod Maps
mod Corpora
mod Elsewhere
mod Huge
mod Nodes
mod Probes
mod Threads
mod Printed
mod Clients

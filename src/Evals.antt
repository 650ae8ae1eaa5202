-- ===== src/Evals.antt =====
-- The evals package: the scores of the pipeline on two corpora.
pub mod Corpus
pub mod Score

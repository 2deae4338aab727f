-- ===== src/Lib.antt =====
-- The core of an incremental calibration library: optimization problems that are added to and removed
-- from a growing problem in batches, and an estimator that decides which batches to keep; and a
-- calibrator that uses them.
--
-- An OptimizationProblem holds design variables in groups, an order of the groups and error terms. An
-- IncrementalOptimizationProblem holds OptimizationProblems (batches) that may share design
-- variables; it counts how many batches use each one. An IncrementalEstimator adds a batch to its
-- IncrementalOptimizationProblem, orders the group that it marginalizes last, optimizes, and keeps
-- the batch or restores the state before. The time-delay calibrator collects poses and wheel speeds
-- with their time stamps; when a window of time is over it fits splines to the poses, makes a batch
-- (an OptimizationProblemSpline) of error terms over them and over the odometry design variables, and
-- gives it to its estimator.
--
-- Files, with the sources under incremental_calibration/ that they model:
--   Common       lists, counts, dictionaries (unordered_map), integers and the effect of a method:
--                a result or an exception together with the state that is left
--   Permute      include/aslam/calibration/algorithms/permute.tpp
--   Groups       the grouped design variables that the next two have in common: setGroupsOrdering,
--                getGroupId(idx), designVariable
--   Backend      the design variable objects of aslam::backend, a parameter
--   Backup       saveDesignVariables and restoreDesignVariables
--   Problem      src/core/OptimizationProblem.cpp and its header
--   Incremental  src/core/IncrementalOptimizationProblem.cpp and its header
--   Optimizer    Optimizer2, LinearSolver, Eigen, double and the clock, a parameter
--   Estimator    src/core/IncrementalEstimator.cpp and its header
--   Grid         include/aslam/calibration/data-structures/Grid.tpp, for integer coordinates
--   Histogram    include/aslam/calibration/statistics/HistogramMv.tpp, over the grid; these two
--                stand by themselves
-- and under incremental_calibration_examples/incremental_calibration_examples_time_delay/:
--   Expressions  what calibrators use of aslam_backend, aslam_splines, bsplines, sm_kinematics and
--                Eigen, a parameter
--   Spline       src/algo/OptimizationProblemSpline.cpp and its header
--   TimeDelay    src/algo/Calibrator.cpp and its header: the state. TimeDelay/Odometry has
--                src/design-variables/OdometryDesignVariables.cpp and src/algo/bestQuat.cpp,
--                TimeDelay/Terms and TimeDelay/Wheels the splines and error terms, TimeDelay/Run and
--                TimeDelay/Predict the methods
-- Functions, fields and types keep the names of the source in snake_case; Incremental/Batches holds
-- the methods that read the batches, Estimator/Solve those that prepare the linear solver,
-- Estimator/Run those that optimize. Files named Tests hold the runs on small inputs that Samples
-- sets up.
--
-- How the state is modelled: design variables, error terms, batches and groups are numbers, that is
-- pointers and ids. A batch pointer stands for the OptimizationProblem that a function `batch` gives,
-- which the core does not change while it is in a problem. The design variables of an error term are
-- given by a function `variables`. The parameters of the design variables are in a store, with one
-- law: a write is read back and touches no other design variable. Exceptions are values; undefined
-- behaviour and a loop that does not end are two more such values, so a theorem that a method returns
-- excludes them. The calibrator allocates its objects itself: batches and error terms are kept in lists,
-- a pointer is a place in the list, and the pointers of design variables count up from the seven of
-- the odometry. An error term or expression is a value of a parameter type, of which the theorems use
-- which design variables it has. `addLeftWheelErrorTerms` and `addRightWheelErrorTerms`, which differ
-- in the side only, have one definition with the side as an argument; the loops of `predict`, which
-- repeat their code, have definitions of their own in TimeDelay/Rounds.
--
-- Bounds and fuel: size_t has 64 bits, and the counts, which are incremented and decremented, wrap
-- around; the theorems about `add` take that the number of batches fits. Time stamps are integers
-- without bounds. In Grid, an `int` that overflows is undefined behaviour, and its theorems take
-- that the number of cells is an `int`. Other sizes and the sums of dimensions are taken not to
-- reach 2^64. The inner loop of `permute` runs on fuel one more than the length of its vector; on
-- a permutation the loop visits no index twice, so this is enough. All other loops are bounded by
-- the source.
--
-- Not modelled: the linear solver and the optimizer themselves, exceptions that they throw, exceptions
-- and assertions of the spline fitter and of the evaluation of splines, which are taken to return on any
-- time stamps, also on equal ones, the statistics, functions and geometry folders but for counting in
-- histograms, grids over real coordinates, the vision and Python packages, the other example packages,
-- the property tree with the options that are read from it, streams and console output, and what
-- conversions from double to int do out of range.
pub mod Common
pub mod Permute
pub mod Groups
pub mod Backend
pub mod Backup
pub mod Problem
pub mod Samples
pub mod Incremental
pub mod Optimizer
pub mod Estimator
pub mod Grid
pub mod Histogram
pub mod Expressions
pub mod Spline
pub mod TimeDelay
